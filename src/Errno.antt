-- ===== src/Errno.antt =====
-- sqfs_mgr.c, errno_from_sqfs; the errno values of Linux, and the error codes of libsquashfs by
-- their names, since their numbers are not part of the repository.
use hooksqfs.Base.{ℕ}

abbrev pub enoent : ℕ
enoent = 2

abbrev pub eio : ℕ
eio = 5

abbrev pub enxio : ℕ
enxio = 6

abbrev pub enomem : ℕ
enomem = 12

abbrev pub eacces : ℕ
eacces = 13

abbrev pub efault : ℕ
efault = 14

abbrev pub eexist : ℕ
eexist = 17

abbrev pub enotdir : ℕ
enotdir = 20

abbrev pub eisdir : ℕ
eisdir = 21

abbrev pub einval : ℕ
einval = 22

abbrev pub erofs : ℕ
erofs = 30

abbrev pub enosys : ℕ
enosys = 38

abbrev pub eoverflow : ℕ
eoverflow = 75

abbrev pub enotsup : ℕ
enotsup = 95

pub data SqfsError : Type 0 where
  alloc io compressor internal corrupted unsupported overflow out_of_bounds : SqfsError
  super_magic super_version super_block_size not_dir no_entry link_loop not_file : SqfsError
  arg_invalid sequence unknown : SqfsError

unfoldable pub errno_from_sqfs : SqfsError → ℕ
errno_from_sqfs alloc = enomem
errno_from_sqfs no_entry = enoent
errno_from_sqfs not_dir = enotdir
errno_from_sqfs not_file = eisdir
errno_from_sqfs unsupported = enotsup
errno_from_sqfs arg_invalid = einval
errno_from_sqfs _ = eio
