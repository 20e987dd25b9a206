-- ===== src/Manager/Tests.antt =====
-- The entry points on the sample image.
use hooksqfs.Base.{
  Bool-cases, ◌==◌, inr, ◌-◌, ◌^◌, ◌≡◌, ◌≢◌, refl, true, Option, none, some, List, [], ◌∷◌, inl,
  arith, Str, codes, str_eq,
}
use hooksqfs.Base.Int.{ℤ, pos, negsuc, ◌+ℤ◌}
use hooksqfs.Inode.{Stat, sqfs_inode_size, sqfs_fill_stat}
use hooksqfs.Env.Kernel.{OpenFds}
use hooksqfs.Env.{FdEntry}
use hooksqfs.Path.{path_equals_normalized, path_relative_to_root}
use hooksqfs.Seek.Exact.{position}
use hooksqfs.Seek.{i64_max}
use hooksqfs.Manager.Folders.Opening.{sqfs_opendir}
use hooksqfs.Manager.Folders.Enumerate.{enumerate_dir}
use hooksqfs.Manager.Backing.Folder.{create_backing_dir}
use hooksqfs.Manager.{State, call, sqfs_check_path_then_convert, sqfs_find_inode, sqfs_stat_impl}
use hooksqfs.Manager.Backing.{create_backing_fd}
use hooksqfs.Manager.Sample.{sample_dirs, sample, sample_file, content, idle, open_file}
use hooksqfs.Manager.Files.{
  sqfs_open, sqfs_read, sqfs_pread, sqfs_lseek, sqfs_lseek64, sqfs_close_impl,
}
use hooksqfs.Manager.Files.Reads.{Serves, At, read_each, read_each-content, sqfs_read-real}
use hooksqfs.Manager.Files.Preads.{sqfs_read-pread}
use hooksqfs.Manager.Files.Seeks.{LogIsQuiet, Seeks, sqfs_lseek64-position, sqfs_lseek-position}
use hooksqfs.Manager.Files.Lifecycle.{AllOpen, Opened, sqfs_open-Opened, sqfs_close_impl-gone}
use hooksqfs.Manager.Stats.{sqfs_access, sqfs_xstat}
use hooksqfs.Manager.Stats.Rules.{
  Queried, Answer, sqfs_access-Queried, sqfs_xstat-Queried, sqfs_access-Answer,
}
use hooksqfs.Manager.Session.{
  Call, open_call, read_call, lseek_call, close_call, opendir_call, readdir_call, closedir_call,
  Answered, after, run, run-Ledger,
}
use hooksqfs.Manager.Folders.Ledger.{Ledger}

abbrev in_image : Option Str
in_image = some (codes "/hook/f")

abbrev elsewhere : Option Str
elsewhere = some (codes "/usr/f")

entry : FdEntry
entry = record { inode = sample_file; offset = 1 }

quiet : LogIsQuiet sample
quiet = record { quiet = λ w. refl }

serves : Serves sample sample_file content
serves = record { gives = λ offset count w. refl }

At-one : At sample (pos 5) content 1 open_file
At-one = record {
  entry = record { inode = sample_file; offset = 1 };
  mapped = refl;
  serves = serves;
  here = refl;
  bounded = omega arith;
}

idle-Ledger : Ledger sample 0 0 0 0 0 idle
idle-Ledger = record {
  inodes = refl;
  fd_entries = refl;
  dir_map_entries = refl;
  readers = refl;
  locks = refl;
}

open_file-IsUnique : sample.fds.IsUnique open_file.fd_map
open_file-IsUnique = (refl, tt)

opens_in_image : (sqfs_open sample in_image 0 0 idle).0 ≡ pos 5
unfolding sqfs_open create_backing_fd sqfs_find_inode str_eq sqfs_check_path_then_convert
    path_equals_normalized path_relative_to_root
opens_in_image = refl

read_each-content_example : (read_each sample (pos 5) (2 ∷ 0 ∷ 7 ∷ []) open_file).0 ≡ codes "bcdef"
read_each-content_example =
    read_each-content sample (pos 5) (2 ∷ 0 ∷ 7 ∷ []) content 1 open_file At-one
      (omega arith, (omega arith, (omega arith, tt))) (omega arith)

sqfs_read-real_example :
    sqfs_read sample (pos 6) 3 open_file ≡ call {e = sample} (sample.libc_read (pos 6) 3) open_file
sqfs_read-real_example = sqfs_read-real sample (pos 6) 3 open_file refl

sqfs_read-pread_example :
    (sqfs_read sample (pos 5) 3 open_file).0 ≡ (sqfs_pread sample (pos 5) 3 (pos 1) open_file).0
sqfs_read-pread_example =
    sqfs_read-pread sample (pos 5) 3 content 1 open_file At-one (omega arith) (omega arith)

sqfs_lseek64-position_example :
    Seeks sample i64_max
      (pos 5)
      (record { inode = sample_file; offset = 1 })
      (position (pos 6 +ℤ negsuc 1))
      open_file
      (sqfs_lseek64 sample (pos 5) (negsuc 1) 2 open_file)
unfolding sqfs_inode_size
sqfs_lseek64-position_example =
    sqfs_lseek64-position sample (pos 5) (negsuc 1) 2 6 (record { inode = sample_file; offset = 1 })
      open_file quiet refl refl (omega arith) (omega arith)

sqfs_lseek-position_example :
    Seeks sample
      (2 ^ 31 - 1)
      (pos 5)
      (record { inode = sample_file; offset = 1 })
      (position (pos 1 +ℤ negsuc 4))
      open_file
      (sqfs_lseek sample (pos 5) (negsuc 4) 1 open_file)
sqfs_lseek-position_example =
    sqfs_lseek-position sample (pos 5) (negsuc 4) 1 1 (record { inode = sample_file; offset = 1 })
      open_file quiet (inl (refl, refl)) refl refl (omega arith) (omega arith)

-- The kernel has descriptor 3 open, and it is in the table.
abbrev kernel : OpenFds sample
kernel = record {
  IsOpen = λ w n. n ≡ 3;
  kept = λ n. record {
    by_open = λ pathname flags mode w h. h;
    by_opendir = λ name w h. h;
    by_log_hook = λ w h. h;
    by_create = λ w h. h;
    by_get_root = λ reader w h. h;
    by_find = λ reader path w h. h;
    by_open_dir = λ reader inode w h. h;
    by_memfd_create = λ flags w h. h;
    by_openat = λ path flags w h. h;
    by_mkdir = λ path mode w h. h;
  };
  new_memfd = λ flags n w h q. ground arith;
  new_openat = λ path flags n w h q. ground arith;
}

abbrev three_open : State sample
three_open = record idle { fd_map = (pos 3, entry) ∷ []; inodes = 1; fd_entries = 1 }

three-AllOpen : AllOpen sample kernel three_open.fd_map 0
three-AllOpen n h = elim (Bool-cases (n == 3)) [
  | inl b ↦ ground arith
  | inr b ↦ absurd (h (rw b refl))
]

sqfs_open-Opened_example :
    Opened sample three_open.fd_map (sqfs_open sample in_image 0 0 three_open)
unfolding str_eq
sqfs_open-Opened_example =
    sqfs_open-Opened sample kernel in_image 0 0 0 three_open refl (refl, tt) three-AllOpen

sqfs_close_impl-gone_example :
    let (ret, t) = sqfs_close_impl sample (pos 5) (some sample.libc_close) open_file in
    (ret ≡ pos 0)
    × (sample.fds.find (pos 5) t.fd_map ≡ none)
    × ((j : ℤ) → j ≢ pos 5 → sample.fds.find j t.fd_map ≡ sample.fds.find j open_file.fd_map)
    × sample.fds.IsUnique t.fd_map
sqfs_close_impl-gone_example =
    sqfs_close_impl-gone sample (pos 5) sample.libc_close open_file open_file-IsUnique

abbrev calls : List Call
calls =
    opendir_call 5 (some (codes "/hook"))
    ∷ opendir_call 5 (some (codes "/hook"))
    ∷ open_call in_image 0 0
    ∷ readdir_call 7
    ∷ read_call (pos 5) 4
    ∷ lseek_call (pos 5) (negsuc 0) 1
    ∷ open_call elsewhere 0 0
    ∷ closedir_call 8
    ∷ closedir_call 7
    ∷ close_call (pos 5)
    ∷ []

abbrev once_opened : State sample
once_opened = after sample (opendir_call 5 (some (codes "/hook"))) idle

-- The directory 7 is open when 8 is.
second-Answered : Answered sample sample_dirs (opendir_call 5 (some (codes "/hook"))) once_opened
unfolding sqfs_opendir sqfs_find_inode create_backing_dir enumerate_dir str_eq
    sqfs_check_path_then_convert path_equals_normalized path_relative_to_root
second-Answered k h = elim (Bool-cases (k == 7)) [
  | inl b ↦ ground arith
  | inr b ↦ absurd (h (rw b refl))
]

run-Ledger_example : Ledger sample 0 0 0 0 0 (run sample calls idle)
run-Ledger_example =
    run-Ledger sample sample_dirs 0 0 0 calls idle
      (
        λ k h. absurd (h refl),
        (second-Answered, (tt, (tt, (tt, (tt, (tt, (tt, (tt, (tt, tt))))))))),
      )
      idle-Ledger

sqfs_access-Queried_example : Queried sample idle (sqfs_access sample in_image 4 idle).1
sqfs_access-Queried_example = sqfs_access-Queried sample in_image 4 idle

sqfs_xstat-Queried_example : Queried sample idle (sqfs_xstat sample (pos 3) in_image true idle).1
sqfs_xstat-Queried_example = sqfs_xstat-Queried sample (pos 3) in_image true idle

abbrev file_stat : Stat
file_stat = sqfs_fill_stat 32 sample.get_file_size 131072 sample_file

sqfs_access-Answer_example : Answer sample 1 0o100444 (sqfs_access sample in_image 1 idle)
unfolding sqfs_check_path_then_convert path_equals_normalized path_relative_to_root sqfs_stat_impl
    sqfs_find_inode sqfs_fill_stat
sqfs_access-Answer_example =
    sqfs_access-Answer sample in_image 1 0 (some (codes "f")) file_stat idle quiet refl refl refl
