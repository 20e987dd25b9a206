-- ===== src/Manager/Sample.antt =====
-- An outside world for the tests: an image with the file "f", whose six bytes are served as they
-- are, and a C library that opens nothing but "/etc" and "/tmp/d" and denies every
-- access.
use hooksqfs.Base.{
  ℕ, ◌+◌, ◌<◌, ◌≢◌, arith, ◌*◌, ◌/◌, ◌%◌, true, Option, Bool-cases, none, some, List, [], ◌∷◌, ◌⊎◌,
  inl, inr, if◌then◌else◌, take, drop, ◌==◌, length, Str, codes, str_eq,
}
use hooksqfs.Base.Int.{ℤ, pos, minus_one}
use hooksqfs.Errno.{SqfsError, no_entry, enoent, eacces}
use hooksqfs.Inode.{Inode, InodeData, file, dir}
use hooksqfs.Env.{Env, Reply, FdEntry, DirEntry, DirRead, no_more, dir_name, Super, got}
use hooksqfs.Env.Kernel.{OpenDirs}
use hooksqfs.Env.Assoc.{assoc, int_key, nat_key}
use hooksqfs.Manager.{State}

abbrev pub reply : {A : Type 0} → A → ℕ → Reply ℕ A
reply a w = record { value = a; errno = none; world = w }

abbrev pub failing : {A : Type 0} → A → ℕ → ℕ → Reply ℕ A
failing a err w = record { value = a; errno = some err; world = w }

abbrev pub members : InodeData
members = record {
  dir_nlink = 2;
  dir_size = 30;
  dir_ext_nlink = 0;
  dir_ext_size = 0;
  file_ext_nlink = 1;
  slink_nlink = 0;
  slink_target_size = 0;
  slink_ext_nlink = 0;
  slink_ext_target_size = 0;
  dev_nlink = 0;
  dev_ext_nlink = 0;
  ipc_nlink = 0;
  ipc_ext_nlink = 0;
}

abbrev pub sample_file : Inode
sample_file = record {
  kind = file;
  mode = 0o100444;
  mod_time = 7;
  inode_number = 3;
  members = members;
}

abbrev pub sample_root : Inode
sample_root = record sample_file { kind = dir; mode = 0o40555; inode_number = 1 }

abbrev pub content : List ℕ
content = codes "abcdef"

abbrev pub opened_by_libc : Option Str → ℕ → Reply ℕ ℤ
opened_by_libc none w = failing minus_one enoent w
opened_by_libc (some path) w =
    if str_eq path (codes "/etc") then reply (pos 3) w else failing minus_one enoent w

abbrev found_in_image : Str → ℕ → Reply ℕ (SqfsError ⊎ Inode)
found_in_image path w =
    if str_eq path (codes "f") then reply (inr sample_file) w else reply (inl no_entry) w

-- The world is the number of names that are read, of at most 3, and 4 for each directory that was
-- opened. The C library opens "/tmp/d" alone, each time as a new directory from 7 on.
abbrev pub opened_folder : Option Str → ℕ → Reply ℕ (Option ℕ)
opened_folder none w = failing none enoent w
opened_folder (some path) w =
    if str_eq path (codes "/tmp/d") then reply (some (7 + w / 4)) (w + 4) else failing none enoent w

-- A directory has the names "f" and "g".
abbrev next_name : ℕ → Reply ℕ DirRead
next_name w =
    if w % 4 == 0
    then reply (dir_name (codes "f")) (w + 1)
    else if w % 4 == 1
    then reply (dir_name (codes "g")) (w + 1)
    else reply no_more w

abbrev pub sample_super : Super
sample_super = record { block_size = 131072; flags = 0; compression_id = 1 }

abbrev pub sample : Env
sample = record {
  World = ℕ;
  Reader = Unit {0};
  fds = assoc int_key FdEntry;
  dirs = assoc nat_key (DirEntry (Unit {0}));
  bits = 32;
  sizeof_off_t = 4;
  file_variable = λ w. none;
  prefix_variable = λ w. none;
  include_variable = λ w. none;
  libc_open = λ pathname flags mode w. opened_by_libc pathname w;
  libc_read = λ fd count w. failing (record { ret = minus_one; bytes = [] }) 9 w;
  libc_pread = λ fd count offset w. failing (record { ret = minus_one; bytes = [] }) 9 w;
  libc_pread64 = none;
  libc_lseek = λ fd offset whence w. failing minus_one 9 w;
  libc_lseek64 = none;
  libc_close = λ fd w. reply (pos 0) w;
  libc_close_nocancel = none;
  libc_access = λ pathname mode w. failing minus_one eacces w;
  libc_xstat = λ ver pathname buf w. failing (minus_one, none) enoent w;
  libc_opendir = λ name w. opened_folder name w;
  libc_readdir = λ dirp w. reply none w;
  libc_closedir = λ dirp w. reply (pos 0) w;
  sizeof_dirent = 280;
  malloc = λ w. reply true w;
  log_hook = λ w. reply tt w;
  log_msg = λ w. reply tt w;
  dir_reader_create = λ w. reply (some tt) w;
  get_root_inode = λ reader w. reply (inr sample_root) w;
  find_by_path = λ reader path w. found_in_image path w;
  dir_reader_open_dir = λ reader inode w. reply none (w / 4 * 4);
  dir_reader_read = λ reader w. next_name w;
  dir_reader_get_inode = λ reader w. reply (inr sample_file) w;
  open_file = λ path w. reply true w;
  super_read = λ w. reply (inr sample_super) w;
  compressor_config_init = λ super w. reply none w;
  compressor_create = λ w. reply none w;
  read_options = λ w. reply none w;
  data_reader_create = λ size w. reply true w;
  load_fragment_table = λ w. reply none w;
  data_reader_read = λ inode offset count w.
      reply (got (length (take count (drop offset content))) (take count (drop offset content))) w;
  get_file_size = λ inode. some 6;
  memfd_create = λ flags w. failing minus_one 38 w;
  openat = λ path flags w.
      if str_eq path (codes "/tmp/1") then reply (pos 5) w else failing minus_one 17 w;
  unlinkat = λ path w. reply (pos 0) w;
  getpid = λ w. 9;
  tmp_path = λ pid id. if id == 1 then codes "/tmp/1" else codes "/tmp/0";
  mkdir = λ path mode w. reply (pos 0) w;
  rmdir = λ path w. reply (pos 0) w;
  tmp_dir_path = λ pid id. codes "/tmp/d";
}

-- The image is loaded and nothing is open.
abbrev pub idle : State sample
idle = record {
  errno = 0;
  world = 0;
  locks = 0;
  file = true;
  compressor = true;
  data_reader = true;
  block_size = 131072;
  fd_map = [];
  inodes = 0;
  readers = 0;
  fd_entries = 0;
  tmp_counter = 0;
  dir_map = [];
  dir_map_entries = 0;
  nodes = 0;
  dir_entries = 0;
  dir_counter = 0;
  objects = 3;
}

-- "f" is open as descriptor 5, at offset 1.
abbrev pub open_file : State sample
open_file = record idle {
  fd_map = (pos 5, record { inode = sample_file; offset = 1 }) ∷ [];
  inodes = 1;
  fd_entries = 1;
}

pub opened_by_libc-kept :
    (n : ℕ) (pathname : Option Str) (w : ℕ)
    → n < 7 + w / 4
    → n < 7 + (opened_by_libc pathname w).world / 4
opened_by_libc-kept n none w h = h
opened_by_libc-kept n (some path) w h = elim (Bool-cases (str_eq path (codes "/etc"))) [
  | inl b ↦ rw b h
  | inr b ↦ rw b h
]

pub found_in_image-kept :
    (n : ℕ) (path : Str) (w : ℕ) → n < 7 + w / 4 → n < 7 + (sample.find_by_path tt path w).world / 4
found_in_image-kept n path w h = elim (Bool-cases (str_eq path (codes "f"))) [
  | inl b ↦ rw b h
  | inr b ↦ rw b h
]

pub openat-kept :
    (n : ℕ) (path : Str) (flags w : ℕ)
    → n < 7 + w / 4
    → n < 7 + (sample.openat path flags w).world / 4
openat-kept n path flags w h = elim (Bool-cases (str_eq path (codes "/tmp/1"))) [
  | inl b ↦ rw b h
  | inr b ↦ rw b h
]

pub opened_folder-kept :
    (n : ℕ) (name : Option Str) (w : ℕ) → n < 7 + w / 4 → n < 7 + (opened_folder name w).world / 4
opened_folder-kept n none w h = h
opened_folder-kept n (some path) w h = elim (Bool-cases (str_eq path (codes "/tmp/d"))) [
  | inl b ↦ rw b (omega (arith, h))
  | inr b ↦ rw b h
]

pub opened_folder-new :
    (n : ℕ) (name : Option Str) (w : ℕ) → n < 7 + w / 4 → (opened_folder name w).value ≢ some n
opened_folder-new n none w h = λ q. ground arith
opened_folder-new n (some path) w h = elim (Bool-cases (str_eq path (codes "/tmp/d"))) [
  | inl b ↦ rw b (λ q. ground (arith, h, q))
  | inr b ↦ rw b (λ q. ground arith)
]

-- The directories that were opened; none of these calls closes one.
abbrev pub sample_dirs : OpenDirs sample
sample_dirs = record {
  IsOpen = λ w n. n < 7 + w / 4;
  kept = λ n. record {
    by_open = λ pathname flags mode w h. opened_by_libc-kept n pathname w h;
    by_opendir = opened_folder-kept n;
    by_log_hook = λ w h. h;
    by_create = λ w h. h;
    by_get_root = λ reader w h. h;
    by_find = λ reader path w h. found_in_image-kept n path w h;
    by_open_dir = λ reader inode w h. omega (arith, h);
    by_memfd_create = λ flags w h. h;
    by_openat = λ path flags w h. openat-kept n path flags w h;
    by_mkdir = λ path mode w h. h;
  };
  new_opendir = λ name n w h. opened_folder-new n name w h;
}
