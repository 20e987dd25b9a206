-- ===== src/Hooks/Restore.antt =====
-- hooksqfs.c: what a failed installation leaves, and what the destructor restores.
use hooksqfs.Base.{◌+◌, ◌≡◌, refl, ◌∙◌, ◌⊎◌, inl, inr, Bool, true, false, not, [], arith}
use hooksqfs.Env.{Env}
use hooksqfs.Hooks.Functions.{LibcFunctions, b_libc_func_ptrs_loaded}
use hooksqfs.Hooks.Install.{
  Loader, Process, outside, hook_all, uninstall_hooks, after_hooks, after_install, with_handle,
  snapshot, log, log_unless, uninstalled, handle_freed, take_down, install_hooks,
}
use hooksqfs.Hooks.Preparing.{if-both, hook_all-Steady}

module _ (e : Env) (l : Loader e.World) where
  -- The hooks are in place, and the functions as they were are kept.
  pub record InPlace (p q : Process e) : Type 0 where
    pub handle : q.hooks_funchook ≡ true
    pub active : q.active ≡ true
    pub saved : q.g_x_trampoline ≡ p.g_x_libc_funcs

  -- No hook is in place, and the functions are as they were.
  pub record Clean (p q : Process e) : Type 0 where
    pub handle : q.hooks_funchook ≡ false
    pub inactive : q.active ≡ false
    pub functions : q.g_x_libc_funcs ≡ p.g_x_libc_funcs

  -- On the way down.
  pub record Down (f : LibcFunctions) (q : Process e) : Type 0 where
    pub inactive : q.active ≡ false
    pub saved : q.g_x_trampoline ≡ f

  uninstalled-Down :
      (f : LibcFunctions) (rv : Bool) (q : Process e) → Down f q → Down f (uninstalled e l rv q).1
  uninstalled-Down f true q d = ground arith
  uninstalled-Down f false q d = d

  log_unless-Down :
      (f : LibcFunctions) (rv : Bool) (q : Process e) → Down f q → Down f (log_unless e l rv q).1
  log_unless-Down f true q d = d
  log_unless-Down f false q d = ground arith

  handle_freed-Down :
      (f : LibcFunctions) (rv : Bool) (q : Process e) → Down f q → Down f (handle_freed e l rv q).1
  handle_freed-Down f true q d = ground arith
  handle_freed-Down f false q d = d

  pub take_down-Clean :
      (p q : Process e)
      → Down p.g_x_libc_funcs
          (uninstalled e l (outside l.funchook_uninstall q).0 (outside l.funchook_uninstall q).1).1
      → Clean p (take_down e l q).1
  take_down-Clean p q d =
      let f = p.g_x_libc_funcs in
      let u = outside l.funchook_uninstall q in
      let v = uninstalled e l u.0 u.1 in
      let w = log_unless e l u.0 v.1 in
      let x = outside l.funchook_destroy w.1 in
      let y = handle_freed e l x.0 x.1 in
      let last =
        log_unless-Down f x.0 y.1
          (handle_freed-Down f x.0 x.1 (ground (arith, log_unless-Down f u.0 v.1 d))) in
      record { handle = refl; inactive = last.inactive; functions = last.saved }

  pub uninstall-Clean :
      (p q : Process e)
      → q.hooks_funchook ≡ true
      → Down p.g_x_libc_funcs q
      → Clean p (uninstall_hooks e l q).1
  unfolding uninstall_hooks
  uninstall-Clean p q h d =
      let u = outside l.funchook_uninstall q in
      if-both (λ (r : Unit {0} × Process e). Clean p r.1) q.hooks_funchook _ _
        (λ b. take_down-Clean p q (uninstalled-Down p.g_x_libc_funcs u.0 u.1 (ground arith)))
        (λ b. ground arith)

  -- Where a handle is there, no hook is in place, and the functions of `p` are kept.
  record Ready (p q : Process e) : Type 0 where
    has_handle : q.hooks_funchook ≡ true
    down : Down p.g_x_libc_funcs q

  after_install-Restored :
      (ok : Bool) (p q : Process e)
      → q.hooks_funchook ≡ true
      → q.active ≡ ok
      → q.g_x_trampoline ≡ p.g_x_libc_funcs
      → Clean p (after_install e l ok q).1 ⊎ InPlace p (after_install e l ok q).1
  after_install-Restored true p q h a t = inr (record { handle = h; active = a; saved = t })
  after_install-Restored false p q h a t =
      inl (uninstall-Clean p (log e l q).1 h (record { inactive = a; saved = t }))

  after_hooks-Restored :
      (ok : Bool) (p q : Process e)
      → Ready p q
      → Clean p (after_hooks e l ok q).1 ⊎ InPlace p (after_hooks e l ok q).1
  after_hooks-Restored false p q r = inl (uninstall-Clean p q r.has_handle r.down)
  after_hooks-Restored true p q r =
      let u = outside l.funchook_install q in
      after_install-Restored u.0 p (record u.1 { active = u.0 }) r.has_handle refl r.down.saved

  with_handle-Restored :
      (ok : Bool) (p q : Process e)
      → q.active ≡ false
      → q.g_x_trampoline ≡ p.g_x_libc_funcs
      → q.g_x_libc_funcs ≡ p.g_x_libc_funcs
      → Clean p (with_handle e l ok q).1 ⊎ InPlace p (with_handle e l ok q).1
  with_handle-Restored false p q a t c = inl (record { handle = refl; inactive = a; functions = c })
  with_handle-Restored true p q a t c =
      let h : Process e = record q {
        hooks_funchook = true;
        handles = q.handles + 1;
        prepared = [];
      } in
      let u = hook_all e l h in
      let k =
        hook_all-Steady e l h h
          (record { trampoline = refl; handle = refl; handles = refl; active = refl }) in
      after_hooks-Restored u.0 p u.1 (record {
        has_handle = k.handle;
        down = record { inactive = k.active ∙ a; saved = k.trampoline ∙ t };
      })

  pub install_hooks-Restored :
      (p : Process e)
      → p.hooks_funchook ≡ false
      → p.active ≡ false
      → let q = (install_hooks e l p).1 in Clean p q ⊎ InPlace p q
  unfolding install_hooks
  install_hooks-Restored p h a =
      let q = log e l p in
      let u = outside l.funchook_create (snapshot e l p).1 in
      if-both (λ (r : Unit {0} × Process e). Clean p r.1 ⊎ InPlace p r.1)
        (not (b_libc_func_ptrs_loaded p.g_x_libc_funcs)) _ _
        (λ b. inl (record { handle = h; inactive = a; functions = refl }))
        (λ b. with_handle-Restored u.0 p u.1 a refl refl)
