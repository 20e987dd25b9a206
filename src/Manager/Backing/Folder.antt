-- ===== src/Manager/Backing/Folder.antt =====
-- utils.c, create_backing_dir: an empty directory of the file system behind an open directory of the
-- image.
pub mod Rules
use hooksqfs.Base.{ℕ, zero, suc, ◌+◌, ◌%◌, ◌^◌, Option, none, some, ◌==◌, if◌then◌else◌, Str}
use hooksqfs.Base.Int.{ℤ, pos, negsuc}
use hooksqfs.Errno.{eexist}
use hooksqfs.Env.{Env}
use hooksqfs.Manager.{State, M, ◌>>=◌, ◌>>◌, pure, get_errno, set_errno, call}

module _ (e : Env) where
  open e use {bits, mkdir, rmdir, getpid, tmp_dir_path, libc_opendir}

  -- atomic_fetch_add_explicit(&counter, 1, memory_order_relaxed)
  abbrev fetch_add_dir : M e ℕ
  fetch_add_dir s = (s.dir_counter, record s { dir_counter = (s.dir_counter + 1) % 2 ^ bits })

  abbrev pub make_dir : Str → M e ℤ
  make_dir path = fetch_add_dir >> call (mkdir path 0o700)

  abbrev pub opened_dir : ℕ → Option ℕ → M e (Option ℕ)
  opened_dir saved_errno none = set_errno saved_errno >> pure none
  opened_dir saved_errno (some folder) = pure (some folder)

  abbrev pub open_made : Str → M e (Option ℕ)
  open_made path = do
    folder ← call (libc_opendir (some path))
    saved_errno ← get_errno
    call (rmdir path)
    opened_dir saved_errno folder

  -- mkdir returned 0, or not; `next` is the next round.
  abbrev pub after_mkdir : M e (Option ℕ) → Str → ℤ → M e (Option ℕ)
  after_mkdir next path (pos zero) s = open_made path s
  after_mkdir next path (pos (suc n)) s = if s.errno == eexist then next s else (none, s)
  after_mkdir next path (negsuc n) s = if s.errno == eexist then next s else (none, s)

  -- The `for` loop, with the number of rounds that are left.
  pub dir_rounds : ℕ → M e (Option ℕ)
  dir_rounds zero s = (set_errno eexist >> pure none) s
  dir_rounds (suc rounds) s =
      let path = tmp_dir_path (getpid s.world) s.dir_counter in
      let (ret, t) = make_dir path s in after_mkdir (dir_rounds rounds) path ret t

  unfoldable pub create_backing_dir : M e (Option ℕ)
  unfolding dir_rounds
  create_backing_dir = dir_rounds 128
