-- ===== src/Manager/Stats.antt =====
-- sqfs_mgr.c, sqfs_xstat and sqfs_access.
pub mod Rules
use Prim.Native.Nat.{bit_and}
use hooksqfs.Base.{
  ℕ, zero, suc, ◌≡◌, Bool, true, false, ◌&&◌, not, Option, none, some, [], ◌==◌, if◌then◌else◌, Str,
}
use hooksqfs.Base.Int.{ℤ, pos, negsuc, minus_one}
use hooksqfs.Errno.{efault, erofs, eacces}
use hooksqfs.Inode.{Stat}
use hooksqfs.Env.{Env}
use hooksqfs.Path.{path_max}
use hooksqfs.Manager.{
  State, M, ◌>>=◌, ◌>>◌, pure, get_errno, set_errno, call, sqfs_lock, sqfs_unlock, Check, refused,
  inside, sqfs_check_path_then_convert, sqfs_stat_impl,
}

-- ret == 0
abbrev pub is_zero : ℤ → Bool
is_zero (pos zero) = true
is_zero (pos (suc n)) = false
is_zero (negsuc n) = false

abbrev pub r_ok : ℕ
r_ok = 4

abbrev pub w_ok : ℕ
w_ok = 2

abbrev pub x_ok : ℕ
x_ok = 1

-- (a & b) != 0
abbrev pub has_bits : ℕ → ℕ → Bool
has_bits a b = not (bit_and a b == 0)

module _ (e : Env) where
  open e use {libc_xstat, libc_access, log_hook}

  -- `buffer` is what *buf holds so far; the result is returned with it.
  abbrev stat_result : Option Stat → Option Stat → M e (ℤ × Option Stat)
  stat_result buffer none s = ((minus_one, buffer), s)
  stat_result buffer (some st) s = ((pos 0, some st), s)

  abbrev xstat_sqfs : ℤ → Bool → Option Stat → Check → M e (ℤ × Option Stat)
  xstat_sqfs ver buf buffer (refused ret) s = (set_errno ret >> pure (minus_one, buffer)) s
  xstat_sqfs ver buf buffer (inside relative) s =
      if not buf
      then (set_errno efault >> pure (minus_one, buffer)) s
      else if not (is_three ver)
      then (call log_hook >> set_errno efault >> pure (minus_one, buffer)) s
      else (do
        sqfs_lock
        st ← sqfs_stat_impl e relative
        saved_errno ← get_errno
        sqfs_unlock
        set_errno saved_errno
        stat_result buffer st)
          s
    where
      is_three : ℤ → Bool
      is_three (pos n) = n == 3
      is_three (negsuc n) = false

  -- `buf` says whether the caller's pointer is not NULL.
  pub sqfs_xstat : ℤ → Option Str → Bool → M e (ℤ × Option Stat)
  sqfs_xstat ver pathname buf s =
      let (real, s') = call (libc_xstat ver pathname buf) s in
      if is_zero real.0
      then ((pos 0, real.1), s')
      else xstat_sqfs ver buf real.1
          (sqfs_check_path_then_convert e pathname (some []) path_max s'.world) s'

  abbrev log_if_inside : Check → M e (Unit {0})
  log_if_inside (refused ret) s = (tt, s)
  log_if_inside (inside relative) s = call log_hook s

  -- sqfs_check_path_then_convert(pathname, NULL, 0) decides whether a line is logged.
  abbrev log_path : Option Str → M e (Unit {0})
  log_path pathname s = log_if_inside (sqfs_check_path_then_convert e pathname none 0 s.world) s

  abbrev return_err : Option Str → M e ℤ
  return_err pathname = log_path pathname >> pure minus_one

  abbrev permit : Option Str → ℕ → Stat → M e ℤ
  permit pathname mode st s =
      let can_read = has_bits st.st_mode 0o444 in
      let can_exec = has_bits st.st_mode 0o111 in
      if has_bits mode w_ok
      then (set_errno erofs >> return_err pathname) s
      else if has_bits mode r_ok && not can_read
      then (set_errno eacces >> return_err pathname) s
      else if has_bits mode x_ok && not can_exec
      then (set_errno eacces >> return_err pathname) s
      else (call log_hook >> pure (pos 0)) s

  abbrev access_result : Option Str → ℕ → ℕ → Option Stat → M e ℤ
  access_result pathname mode saved_errno none s = (set_errno saved_errno >> return_err pathname) s
  access_result pathname mode saved_errno (some st) s = permit pathname mode st s

  abbrev access_sqfs : Option Str → ℕ → Check → M e ℤ
  access_sqfs pathname mode (refused ret) s = (set_errno ret >> return_err pathname) s
  access_sqfs pathname mode (inside relative) s =
      (do
        sqfs_lock
        st ← sqfs_stat_impl e relative
        saved_errno ← get_errno
        sqfs_unlock
        access_result pathname mode saved_errno st)
        s

  pub sqfs_access : Option Str → ℕ → M e ℤ
  sqfs_access pathname mode s =
      let (real, s') = call (libc_access pathname mode) s in
      if is_zero real
      then (log_path pathname >> pure (pos 0)) s'
      else access_sqfs pathname mode
          (sqfs_check_path_then_convert e pathname (some []) path_max s'.world) s'
