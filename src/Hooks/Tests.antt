-- ===== src/Hooks/Tests.antt =====
-- A C library where pread64 is pread and __close_nocancel is close, and a funchook that succeeds.
use hooksqfs.Base.{ℕ, ◌+◌, ◌≡◌, refl, true, false, [], arith}
use hooksqfs.Manager.Sample.{sample, reply, idle}
use hooksqfs.Hooks.Functions.{LibcFunctions, pointer}
use hooksqfs.Hooks.Install.{
  Loader, Process, raw, hook, hook_if, hook_all, install_hooks, sqfs_mutex_init_once,
  v_populate_libc_func_ptrs, hooksqfs_init, hooksqfs_fini,
}
use hooksqfs.Hooks.Restore.{Clean}
use hooksqfs.Hooks.Fini.{hooksqfs_init-fini}
use hooksqfs.Hooks.Chain.{every_hook, Trampolines}
use hooksqfs.Hooks.Prepared.{install_hooks-prepared}

abbrev functions : LibcFunctions
functions = record {
  open_func = 1;
  read = 2;
  pread = 3;
  pread64 = 3;
  lseek = 5;
  lseek64 = 6;
  close = 7;
  close_nocancel = 7;
  opendir = 9;
  readdir = 10;
  closedir = 11;
  access = 12;
  xstat = 13;
}

abbrev loader : Loader ℕ
loader = record {
  dlsym = λ symbol w. reply (pointer symbol functions) w;
  funchook_create = λ w. reply true w;
  funchook_prepare = λ symbol func w. reply (record { ok = true; target = 1000 + func }) w;
  funchook_install = λ w. reply true w;
  funchook_uninstall = λ w. reply true w;
  funchook_destroy = λ w. reply true w;
  mutexattr_init = λ w. reply true w;
  mutexattr_settype = λ w. reply true w;
}

abbrev before : Process sample
before = record {
  manager = idle;
  mutex = raw;
  g_x_libc_funcs = functions;
  g_x_trampoline = functions;
  hooks_funchook = false;
  g_b_libc_funcs_populated = true;
  handles = 0;
  prepared = [];
  active = false;
}

hooksqfs_init-fini_example :
    let found =
      (v_populate_libc_func_ptrs sample loader (sqfs_mutex_init_once sample loader before).1).1 in
    Clean sample loader found (hooksqfs_fini sample loader (hooksqfs_init sample loader before).1).1
hooksqfs_init-fini_example =
    hooksqfs_init-fini sample loader before (record { succeeds = λ w. refl }) refl refl

trampolines : Trampolines sample loader functions
trampolines = record { is_new = λ symbol func w. (λ h. omega arith, λ h. omega arith) }

install_hooks-prepared_example :
    (install_hooks sample loader before).1.prepared ≡ every_hook functions
unfolding install_hooks hook_all hook hook_if
install_hooks-prepared_example = install_hooks-prepared sample loader before trampolines refl refl
