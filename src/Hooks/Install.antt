-- ===== src/Hooks/Install.antt =====
-- hooksqfs.c, from vPopulateLibcFuncPtrs to hooksqfs_fini, over dlsym, funchook and the calls on
-- pthread mutexes.
use hooksqfs.Base.{ℕ, ◌+◌, ◌-◌, Bool, true, false, not, List, [], ◌∷◌, ◌++◌, ◌==◌, if◌then◌else◌}
use hooksqfs.Env.{Env, Reply}
use hooksqfs.Manager.{State, call}
use hooksqfs.Manager.Image.{sqfs_mgr_load_image}
use hooksqfs.Hooks.Functions.{
  LibcFunctions, Symbol, open_symbol, read_symbol, pread_symbol, pread64_symbol, lseek_symbol,
  lseek64_symbol, close_symbol, close_nocancel_symbol, opendir_symbol, readdir_symbol,
  closedir_symbol, access_symbol, xstat_symbol, pointer, set_pointer, b_libc_func_ptrs_loaded,
}

-- funchook_prepare: whether it returns 0, and what it leaves in the target.
pub record Prepared : Type 0 where
  pub ok : Bool
  pub target : ℕ

-- What hooksqfs.c calls; a result is whether the call succeeds.
pub record Loader (W : Type 0) : Type 0 where
  pub dlsym : Symbol → W → Reply W ℕ
  pub funchook_create : W → Reply W Bool
  pub funchook_prepare : Symbol → ℕ → W → Reply W Prepared
  pub funchook_install : W → Reply W Bool
  pub funchook_uninstall : W → Reply W Bool
  pub funchook_destroy : W → Reply W Bool
  pub mutexattr_init : W → Reply W Bool
  pub mutexattr_settype : W → Reply W Bool

-- The mutex before its initialisation, and after it of the default or of the recursive type.
pub data Mutex : Type 0 where
  raw : Mutex
  plain : Mutex
  recursive : Mutex

-- The variables of hooksqfs.c beside the manager; `hooks_funchook` is whether the handle is not NULL.
-- `handles` counts the handles that are not destroyed, `prepared` holds the functions that the last one
-- was given to hook, in order, and `active` is whether its hooks are in place.
pub record Process (e : Env) : Type 0 where
  pub manager : State e
  pub mutex : Mutex
  pub g_x_libc_funcs : LibcFunctions
  pub g_x_trampoline : LibcFunctions
  pub hooks_funchook : Bool
  pub g_b_libc_funcs_populated : Bool
  pub handles : ℕ
  pub prepared : List (Symbol × ℕ)
  pub active : Bool

abbrev pub P : Env → Type 0 → Type 0
P e A = Process e → A × Process e

module _ {e : Env} where
  infixl 5 ◌>>=◌ ◌>>◌
  abbrev pub ◌>>=◌ : {A B : Type 0} → P e A → (A → P e B) → P e B
  (m >>= f) p = f (m p).0 (m p).1

  abbrev pub ◌>>◌ : {A B : Type 0} → P e A → P e B → P e B
  (m >> n) p = n (m p).1

  abbrev pub pure : {A : Type 0} → A → P e A
  pure a p = (a, p)

  -- A call of the manager, or of the outside.
  abbrev pub managed : {A : Type 0} → (State e → A × State e) → P e A
  managed m p = let (a, s) = m p.manager in (a, record p { manager = s })

  abbrev pub outside : {A : Type 0} → (e.World → Reply e.World A) → P e A
  outside f = managed (call f)

module _ (e : Env) (l : Loader e.World) where
  open l use {
    dlsym, funchook_create, funchook_prepare, funchook_install, funchook_uninstall,
    funchook_destroy, mutexattr_init, mutexattr_settype,
  }

  abbrev pub log : P e (Unit {0})
  log = outside e.log_msg

  abbrev pub set_current : Symbol → ℕ → P e (Unit {0})
  set_current symbol func p =
      (tt, record p { g_x_libc_funcs = set_pointer symbol func p.g_x_libc_funcs })

  abbrev pub load_symbol : Symbol → P e (Unit {0})
  load_symbol symbol = outside (dlsym symbol) >>= set_current symbol

  abbrev pub close_if_null : P e (Unit {0})
  close_if_null p =
      if p.g_x_libc_funcs.close_nocancel == 0
      then (log >> set_current close_nocancel_symbol p.g_x_libc_funcs.close) p
      else (tt, p)

  abbrev pub populated : P e (Unit {0})
  populated p = (tt, record p { g_b_libc_funcs_populated = true })

  abbrev pub load_symbols : P e (Unit {0})
  load_symbols = do
    load_symbol open_symbol
    load_symbol read_symbol
    load_symbol pread_symbol
    load_symbol pread64_symbol
    load_symbol lseek_symbol
    load_symbol lseek64_symbol
    load_symbol close_symbol
    load_symbol close_nocancel_symbol
    close_if_null
    load_symbol opendir_symbol
    load_symbol readdir_symbol
    load_symbol closedir_symbol
    load_symbol access_symbol
    load_symbol xstat_symbol
    populated

  unfoldable pub v_populate_libc_func_ptrs : P e (Unit {0})
  v_populate_libc_func_ptrs p = if p.g_b_libc_funcs_populated then (tt, p) else load_symbols p

  -- The target is a member of g_xLibcFuncs.
  abbrev pub after_funchook_prepare : Symbol → ℕ → Prepared → P e Bool
  after_funchook_prepare symbol func r p =
      let q : Process e = record p {
        g_x_libc_funcs = set_pointer symbol r.target p.g_x_libc_funcs;
      } in
      if r.ok
      then (true, record q { prepared = q.prepared ++ (symbol, func) ∷ [] })
      else (log >> pure false) q

  abbrev pub prepare_hook : Symbol → P e Bool
  prepare_hook symbol p =
      (outside (funchook_prepare symbol (pointer symbol p.g_x_libc_funcs))
          >>= after_funchook_prepare symbol (pointer symbol p.g_x_libc_funcs))
        p

  abbrev pub go_on : P e Bool → Bool → P e Bool
  go_on next true = next
  go_on next false = pure false

  -- `prepare_hook(symbol) != 0 || next`, negated
  unfoldable pub hook : Symbol → P e Bool → P e Bool
  hook symbol next = prepare_hook symbol >>= go_on next

  -- `(test && prepare_hook(symbol) != 0) || next`, negated
  unfoldable pub hook_if : (Process e → Bool) → Symbol → P e Bool → P e Bool
  hook_if test symbol next p = if test p then hook symbol next p else next p

  abbrev pub pread64_differs : Process e → Bool
  pread64_differs p = not (p.g_x_libc_funcs.pread64 == p.g_x_libc_funcs.pread)

  abbrev pub lseek64_differs : Process e → Bool
  lseek64_differs p = not (p.g_x_libc_funcs.lseek64 == p.g_x_libc_funcs.lseek)

  abbrev pub close_nocancel_differs : Process e → Bool
  close_nocancel_differs p =
      if p.g_x_trampoline.close_nocancel == 0
      then false
      else not (p.g_x_trampoline.close_nocancel == p.g_x_trampoline.close)

  -- The condition of install_hooks, negated.
  unfoldable pub hook_all : P e Bool
  hook_all = hook open_symbol (
      hook read_symbol (
        hook pread_symbol (
          hook lseek_symbol (
            hook_if pread64_differs pread64_symbol (
              hook_if lseek64_differs lseek64_symbol (
                hook close_symbol (
                  hook_if close_nocancel_differs close_nocancel_symbol (
                    hook opendir_symbol (
                      hook readdir_symbol (
                        hook closedir_symbol
                          (hook access_symbol (hook xstat_symbol (pure true)))))))))))))

  abbrev pub log_unless : Bool → P e (Unit {0})
  log_unless ok p = if ok then (tt, p) else log p

  abbrev pub uninstalled : Bool → P e (Unit {0})
  uninstalled ok p = if ok then (tt, record p { active = false }) else (tt, p)

  abbrev pub handle_freed : Bool → P e (Unit {0})
  handle_freed ok p = if ok then (tt, record p { handles = p.handles - 1 }) else (tt, p)

  abbrev pub restore : P e (Unit {0})
  restore p = (tt, record p { hooks_funchook = false; g_x_libc_funcs = p.g_x_trampoline })

  abbrev pub take_down : P e (Unit {0})
  take_down = do
    rv ← outside funchook_uninstall
    uninstalled rv
    log_unless rv
    rv ← outside funchook_destroy
    handle_freed rv
    log_unless rv
    restore

  unfoldable pub uninstall_hooks : P e (Unit {0})
  uninstall_hooks p = if p.hooks_funchook then take_down p else (tt, p)

  abbrev pub log_pointers : P e (Unit {0})
  log_pointers =
      log >> log >> log >> log >> log >> log >> log >> log >> log >> log >> log >> log >> log >> log

  abbrev pub after_install : Bool → P e (Unit {0})
  after_install false = log >> uninstall_hooks
  after_install true = log_pointers

  abbrev pub hooks_in_place : Bool → P e Bool
  hooks_in_place ok p = (ok, record p { active = ok })

  abbrev pub after_hooks : Bool → P e (Unit {0})
  after_hooks false = uninstall_hooks
  after_hooks true = outside funchook_install >>= hooks_in_place >>= after_install

  abbrev pub snapshot : P e (Unit {0})
  snapshot p = (tt, record p { g_x_trampoline = p.g_x_libc_funcs })

  abbrev pub with_handle : Bool → P e (Unit {0})
  with_handle false p = log (record p { hooks_funchook = false })
  with_handle true p =
      (hook_all >>= after_hooks)
        (record p { hooks_funchook = true; handles = p.handles + 1; prepared = [] })

  unfoldable pub install_hooks : P e (Unit {0})
  unfolding uninstall_hooks hook_all
  install_hooks p =
      if not (b_libc_func_ptrs_loaded p.g_x_libc_funcs)
      then log p
      else (snapshot >> outside funchook_create >>= with_handle) p

  abbrev pub set_mutex : Mutex → P e (Unit {0})
  set_mutex mutex p = (tt, record p { mutex = mutex })

  abbrev pub after_settype : Bool → P e (Unit {0})
  after_settype true = set_mutex recursive
  after_settype false = set_mutex plain

  abbrev pub after_attr : Bool → P e (Unit {0})
  after_attr false = set_mutex plain
  after_attr true = outside mutexattr_settype >>= after_settype

  unfoldable pub sqfs_mutex_init_once : P e (Unit {0})
  sqfs_mutex_init_once = outside mutexattr_init >>= after_attr

  unfoldable pub hooksqfs_init : P e (Unit {0})
  unfolding sqfs_mutex_init_once v_populate_libc_func_ptrs install_hooks
  hooksqfs_init = do
    sqfs_mutex_init_once
    v_populate_libc_func_ptrs
    managed (sqfs_mgr_load_image e)
    install_hooks

  unfoldable pub hooksqfs_fini : P e (Unit {0})
  unfolding uninstall_hooks
  hooksqfs_fini = uninstall_hooks
