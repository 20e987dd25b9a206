-- ===== src/Hooks/Prepared.antt =====
-- hooksqfs.c, install_hooks: which functions are hooked.
use hooksqfs.Base.{ℕ, ◌+◌, ◌≡◌, refl, ◌∙◌, Bool, true, false, not, List, [], arith}
use hooksqfs.Env.{Env}
use hooksqfs.Hooks.Functions.{Symbol, b_libc_func_ptrs_loaded}
use hooksqfs.Hooks.Install.{
  Loader, Process, outside, hook_all, uninstall_hooks, after_hooks, after_install, with_handle,
  snapshot, log, install_hooks,
}
use hooksqfs.Hooks.Preparing.{if-both, hook_all-Steady}
use hooksqfs.Hooks.Restore.{Clean, uninstall-Clean}
use hooksqfs.Hooks.Chain.{every_hook, Trampolines, Gives, hook_all-Gives}

module _ (e : Env) (l : Loader e.World) where
  module _ (p : Process e) (xs : List (Symbol × ℕ)) where
    abbrev Active : Process e → Type 0
    Active q = q.active ≡ true → q.prepared ≡ xs

    gone-Active : (q : Process e) → Clean e l p q → Active q
    gone-Active q c a = ground (arith, c.inactive)

    -- There is a handle, its hooks are not in place, and the functions of `p` are kept.
    record Kept (q : Process e) : Type 0 where
      handle : q.hooks_funchook ≡ true
      inactive : q.active ≡ false
      saved : q.g_x_trampoline ≡ p.g_x_libc_funcs

    Kept-Active : (q : Process e) → Kept q → Active (uninstall_hooks e l q).1
    Kept-Active q k =
        gone-Active _
          (uninstall-Clean e l p q k.handle (record { inactive = k.inactive; saved = k.saved }))

    after_install-Active :
        (ok : Bool) (q : Process e)
        → Kept q
        → q.prepared ≡ xs
        → Active (after_install e l ok (record q { active = ok })).1
    after_install-Active true q k h = λ a. h
    after_install-Active false q k h =
        Kept-Active (log e l (record q { active = false })).1
          (record { handle = k.handle; inactive = refl; saved = k.saved })

    after_hooks-Active :
        (ok : Bool) (q : Process e)
        → Kept q
        → (ok ≡ true → q.prepared ≡ xs)
        → Active (after_hooks e l ok q).1
    after_hooks-Active false q k h = Kept-Active q k
    after_hooks-Active true q k h =
        let u = outside l.funchook_install q in
        after_install-Active u.0 u.1
          (record { handle = k.handle; inactive = k.inactive; saved = k.saved }) (h refl)

  -- The state at which the hooks are prepared.
  abbrev with_new_handle : Process e → Process e
  with_new_handle q = record q { hooks_funchook = true; handles = q.handles + 1; prepared = [] }

  with_handle-Active :
      (ok : Bool) (p q : Process e)
      → q.g_x_trampoline ≡ p.g_x_libc_funcs
      → q.active ≡ false
      → (t : Trampolines e l p.g_x_libc_funcs)
      → Gives e l p.g_x_libc_funcs t
          (every_hook p.g_x_libc_funcs)
          (hook_all e l (with_new_handle q))
      → Active p (every_hook p.g_x_libc_funcs) (with_handle e l ok q).1
  with_handle-Active false p q r a t h = λ b. ground arith
  with_handle-Active true p q r a t h =
      let n = with_new_handle q in
      let u = hook_all e l n in
      let s =
        hook_all-Steady e l n n
          (record { trampoline = refl; handle = refl; handles = refl; active = refl }) in
      after_hooks-Active p (every_hook p.g_x_libc_funcs) u.0 u.1
        (record { handle = s.handle; inactive = s.active ∙ a; saved = s.trampoline ∙ r }) h

  -- Where install_hooks puts the hooks in place in a process without hooks, it has given funchook each
  -- function of g_xLibcFuncs once and in order, by the address that it had before, but
  -- __close_nocancel only if its address is not that of close. pread64 and lseek64 are among them even
  -- if they are pread and lseek: then that address is hooked twice. The target of a prepared hook is
  -- neither pread64 nor lseek64.
  pub install_hooks-prepared :
      (p : Process e)
      → Trampolines e l p.g_x_libc_funcs
      → p.active ≡ false
      → (install_hooks e l p).1.active ≡ true
      → (install_hooks e l p).1.prepared ≡ every_hook p.g_x_libc_funcs
  unfolding install_hooks
  install_hooks-prepared p t a =
      let f = p.g_x_libc_funcs in
      let u = outside l.funchook_create (snapshot e l p).1 in
      if-both (λ (r : Unit {0} × Process e). Active p (every_hook f) r.1)
        (not (b_libc_func_ptrs_loaded f)) _ _ (λ b c. ground arith)
        (λ b.
          with_handle-Active u.0 p u.1 refl a t
            (hook_all-Gives e l f t (every_hook f) (with_new_handle u.1) refl))
