-- ===== src/Hooks/Fini.antt =====
-- hooksqfs.c, hooksqfs_init and hooksqfs_fini.
use hooksqfs.Base.{◌≡◌, refl, ◌∙◌, inl, inr, Bool, true, false, arith, ◌==◌}
use hooksqfs.Env.{Env}
use hooksqfs.Manager.Image.{sqfs_mgr_load_image}
use hooksqfs.Hooks.Functions.{
  open_symbol, read_symbol, pread_symbol, pread64_symbol, lseek_symbol, lseek64_symbol,
  close_symbol, close_nocancel_symbol,
}
use hooksqfs.Hooks.Install.{
  Loader, Process, outside, managed, ◌>>◌, load_symbol, uninstall_hooks, after_attr, after_settype,
  close_if_null, uninstalled, install_hooks, sqfs_mutex_init_once, v_populate_libc_func_ptrs,
  hooksqfs_init, hooksqfs_fini,
}
use hooksqfs.Hooks.Preparing.{if-both}
use hooksqfs.Hooks.Restore.{InPlace, Clean, Down, take_down-Clean, install_hooks-Restored}

module _ (e : Env) (l : Loader e.World) where
  -- What the documentation of funchook_uninstall promises of installed hooks.
  pub record Uninstalls : Type 0 where
    pub succeeds : (w : e.World) → (l.funchook_uninstall w).value ≡ true

  inactive_after :
      (rv : Bool) (p q : Process e)
      → rv ≡ true
      → q.g_x_trampoline ≡ p.g_x_libc_funcs
      → Down e l p.g_x_libc_funcs (uninstalled e l rv q).1
  inactive_after true p q r t = record { inactive = refl; saved = t }
  inactive_after false p q r t = ground arith

  uninstall-InPlace :
      (p q : Process e) → Uninstalls → InPlace e l p q → Clean e l p (uninstall_hooks e l q).1
  unfolding uninstall_hooks
  uninstall-InPlace p q n h =
      let u = outside l.funchook_uninstall q in
      if-both (λ (r : Unit {0} × Process e). Clean e l p r.1) q.hooks_funchook _ _
        (λ b.
          take_down-Clean e l p q (inactive_after u.0 p u.1 (n.succeeds q.manager.world) h.saved))
        (λ b. ground (arith, h.handle))

  uninstall_again : (p q : Process e) → Clean e l p q → Clean e l p (uninstall_hooks e l q).1
  unfolding uninstall_hooks
  uninstall_again p q c =
      if-both (λ (r : Unit {0} × Process e). Clean e l p r.1) q.hooks_funchook _ _
        (λ b. ground (arith, c.handle)) (λ b. c)

  -- The steps before install_hooks leave the hooks alone.
  record Before (p q : Process e) : Type 0 where
    same_handle : q.hooks_funchook ≡ p.hooks_funchook
    same_active : q.active ≡ p.active

  after_settype-Before : (ok : Bool) (p : Process e) → Before p (after_settype e l ok p).1
  after_settype-Before true p = record { same_handle = refl; same_active = refl }
  after_settype-Before false p = record { same_handle = refl; same_active = refl }

  after_attr-Before : (ok : Bool) (p : Process e) → Before p (after_attr e l ok p).1
  after_attr-Before true p =
      let u = outside l.mutexattr_settype p in
      let k = after_settype-Before u.0 u.1 in
      record { same_handle = k.same_handle; same_active = k.same_active }
  after_attr-Before false p = record { same_handle = refl; same_active = refl }

  sqfs_mutex_init_once-Before : (p : Process e) → Before p (sqfs_mutex_init_once e l p).1
  unfolding sqfs_mutex_init_once
  sqfs_mutex_init_once-Before p =
      let u = outside l.mutexattr_init p in
      let k = after_attr-Before u.0 u.1 in
      record { same_handle = k.same_handle; same_active = k.same_active }

  close_if_null-Before : (p : Process e) → Before p (close_if_null e l p).1
  close_if_null-Before p =
      if-both (λ (r : Unit {0} × Process e). Before p r.1) (p.g_x_libc_funcs.close_nocancel == 0) _
        _ (λ b. record { same_handle = refl; same_active = refl })
        (λ b. record { same_handle = refl; same_active = refl })

  v_populate_libc_func_ptrs-Before : (p : Process e) → Before p (v_populate_libc_func_ptrs e l p).1
  unfolding v_populate_libc_func_ptrs
  v_populate_libc_func_ptrs-Before p =
      if-both (λ (r : Unit {0} × Process e). Before p r.1) p.g_b_libc_funcs_populated _ _
        (λ b. record { same_handle = refl; same_active = refl })
        (λ b.
          let found =
            (load_symbol e l open_symbol
                >> load_symbol e l read_symbol
                >> load_symbol e l pread_symbol
                >> load_symbol e l pread64_symbol
                >> load_symbol e l lseek_symbol
                >> load_symbol e l lseek64_symbol
                >> load_symbol e l close_symbol
                >> load_symbol e l close_nocancel_symbol)
              p in
          let k = close_if_null-Before found.1 in
          record { same_handle = k.same_handle; same_active = k.same_active })

  moved : (p q r : Process e) → p.g_x_libc_funcs ≡ q.g_x_libc_funcs → Clean e l p r → Clean e l q r
  moved p q r h c = record { handle = c.handle; inactive = c.inactive; functions = c.functions ∙ h }

  -- The constructor and then the destructor, in a process without hooks, whatever else fails: no hook is
  -- in place, there is no handle, and g_xLibcFuncs holds the functions that vPopulateLibcFuncPtrs found.
  -- funchook_uninstall succeeds.
  pub hooksqfs_init-fini :
      (p : Process e)
      → Uninstalls
      → p.hooks_funchook ≡ false
      → p.active ≡ false
      → let looked_up = (v_populate_libc_func_ptrs e l (sqfs_mutex_init_once e l p).1).1 in
        Clean e l looked_up (hooksqfs_fini e l (hooksqfs_init e l p).1).1
  unfolding hooksqfs_init hooksqfs_fini
  hooksqfs_init-fini p n h a =
      let u = sqfs_mutex_init_once e l p in
      let v = v_populate_libc_func_ptrs e l u.1 in
      let w = managed (sqfs_mgr_load_image e) v.1 in
      let k = sqfs_mutex_init_once-Before p in
      let m = v_populate_libc_func_ptrs-Before u.1 in
      let q = install_hooks e l w.1 in
      elim (install_hooks-Restored e l w.1 (m.same_handle ∙ k.same_handle ∙ h)
        (m.same_active ∙ k.same_active ∙ a)) [
          | inl c ↦ moved w.1 v.1 _ refl (uninstall_again w.1 q.1 c)
          | inr i ↦ moved w.1 v.1 _ refl (uninstall-InPlace w.1 q.1 n i)
        ]
