-- ===== src/Env.antt =====
-- What the program calls and does not implement: the C library, the system calls, libsquashfs and
-- uthash. Each call takes the state of the outside world and returns its value, the new state, and
-- the errno that it sets, `none` where it leaves errno alone.
pub mod Uthash
pub mod Assoc
pub mod Kernel
use hooksqfs.Base.{ℕ, Bool, Option, List, ◌⊎◌, Str}
use hooksqfs.Base.Int.{ℤ}
use hooksqfs.Errno.{SqfsError}
use hooksqfs.Inode.{Inode, Stat}
use Uthash.{Table}

pub record Reply (W A : Type 0) : Type 0 where
  pub value : A
  pub errno : Option ℕ
  pub world : W

-- struct FDMapEntry; its key is the key of the table.
pub record FdEntry : Type 0 where
  pub inode : Inode
  pub offset : ℕ

-- struct dirent, as the program fills it.
pub record Dirent : Type 0 where
  pub d_ino : ℕ
  pub d_off : ℕ
  pub d_reclen : ℕ
  pub d_type : ℕ
  pub d_name : Str

-- struct SqfsDirEntryNode. A pointer to a node is the list that begins there, NULL the empty one.
pub record Node : Type 0 where
  pub inode : Inode
  pub dirent : Dirent

-- struct DirMapEntry; its key, a `DIR *`, is the key of the table.
pub record DirEntry (R : Type 0) : Type 0 where
  pub dir_reader : R
  pub is_real_dir : Bool
  pub dir_entry_list : List Node
  pub dir_entry_current : List Node
  pub dir_entry_list_reached_end : Bool

-- sqfs_dir_reader_read: the end of the directory, an error, or an entry with this name.
pub data DirRead : Type 0 where
  no_more : DirRead
  dir_error : SqfsError → DirRead
  dir_name : Str → DirRead

-- The fields of the superblock that are read.
pub record Super : Type 0 where
  pub block_size : ℕ
  pub flags : ℕ
  pub compression_id : ℕ

-- What a read left in the buffer, with its return value.
pub record ReadReply : Type 0 where
  pub ret : ℤ
  pub bytes : List ℕ

-- sqfs_data_reader_read: the number of bytes and the bytes, or an error.
pub data Chunk : Type 0 where
  got : ℕ → List ℕ → Chunk
  read_error : SqfsError → Chunk

pub record Env : Type 1 where
  pub World : Type 0
  -- the handle that sqfs_dir_reader_create returns
  pub Reader : Type 0
  pub fds : Table ℤ FdEntry
  pub dirs : Table ℕ (DirEntry Reader)
  -- the width of off_t, and its sizeof
  pub bits : ℕ
  pub sizeof_off_t : ℕ
  -- getenv("HOOKSQFS_FILE"), getenv("HOOKSQFS_PREFIX") and getenv("HOOKSQFS_LOG_INCLUDE")
  pub file_variable : World → Option Str
  pub prefix_variable : World → Option Str
  pub include_variable : World → Option Str
  -- g_xLibcFuncs; an `Option` is a pointer that the code tests for NULL
  pub libc_open : Option Str → ℕ → Option ℕ → World → Reply World ℤ
  pub libc_read : ℤ → ℕ → World → Reply World ReadReply
  pub libc_pread : ℤ → ℕ → ℤ → World → Reply World ReadReply
  pub libc_pread64 : Option (ℤ → ℕ → ℤ → World → Reply World ReadReply)
  pub libc_lseek : ℤ → ℤ → ℕ → World → Reply World ℤ
  pub libc_lseek64 : Option (ℤ → ℤ → ℕ → World → Reply World ℤ)
  pub libc_close : ℤ → World → Reply World ℤ
  pub libc_close_nocancel : Option (ℤ → World → Reply World ℤ)
  pub libc_access : Option Str → ℕ → World → Reply World ℤ
  pub libc_xstat : ℤ → Option Str → Bool → World → Reply World (ℤ × Option Stat)
  -- a DIR * is a number, and NULL is `none`
  pub libc_opendir : Option Str → World → Reply World (Option ℕ)
  pub libc_readdir : ℕ → World → Reply World (Option Dirent)
  pub libc_closedir : ℕ → World → Reply World ℤ
  pub sizeof_dirent : ℕ
  -- malloc of an entry: whether it succeeds
  pub malloc : World → Reply World Bool
  -- log_hook and log_msg of logging.c, for their effects
  pub log_hook : World → Reply World (Unit {0})
  pub log_msg : World → Reply World (Unit {0})
  -- libsquashfs
  pub dir_reader_create : World → Reply World (Option Reader)
  pub get_root_inode : Reader → World → Reply World (SqfsError ⊎ Inode)
  pub find_by_path : Reader → Str → World → Reply World (SqfsError ⊎ Inode)
  pub dir_reader_open_dir : Reader → Inode → World → Reply World (Option SqfsError)
  pub dir_reader_read : Reader → World → Reply World DirRead
  pub dir_reader_get_inode : Reader → World → Reply World (SqfsError ⊎ Inode)
  pub open_file : Str → World → Reply World Bool
  pub super_read : World → Reply World (SqfsError ⊎ Super)
  pub compressor_config_init : Super → World → Reply World (Option SqfsError)
  pub compressor_create : World → Reply World (Option SqfsError)
  pub read_options : World → Reply World (Option SqfsError)
  pub data_reader_create : ℕ → World → Reply World Bool
  pub load_fragment_table : World → Reply World (Option SqfsError)
  pub data_reader_read : Inode → ℕ → ℕ → World → Reply World Chunk
  pub get_file_size : Inode → Option ℕ
  -- the system calls of create_backing_fd, getpid, and the path that snprintf writes for
  -- "/tmp/hooksqfs-%ld-%lu"
  pub memfd_create : ℕ → World → Reply World ℤ
  pub openat : Str → ℕ → World → Reply World ℤ
  pub unlinkat : Str → World → Reply World ℤ
  pub getpid : World → ℕ
  pub tmp_path : ℕ → ℕ → Str
  -- those of create_backing_dir, and its path
  pub mkdir : Str → ℕ → World → Reply World ℤ
  pub rmdir : Str → World → Reply World ℤ
  pub tmp_dir_path : ℕ → ℕ → Str
