-- ===== src/Inode.antt =====
-- sqfs_mgr.c, what is read from an inode: sqfs_inode_mode, sqfs_inode_nlink, sqfs_inode_size and
-- sqfs_fill_stat. The inode is the structure of libsquashfs with the fields that the source reads;
-- the union `data` has a field for each member that is read.
pub mod Mode
mod Tests
use Prim.Native.Nat.{bit_or}
use hooksqfs.Base.{ℕ, ◌+◌, ◌/◌, ◌%◌, ◌^◌, Option, none, some}
use hooksqfs.Base.Int.{ℤ, to_signed}

pub data InodeType : Type 0 where
  dir ext_dir file ext_file slink ext_slink bdev ext_bdev cdev ext_cdev : InodeType
  fifo ext_fifo socket ext_socket other_type : InodeType

pub record InodeData : Type 0 where
  pub dir_nlink : ℕ
  pub dir_size : ℕ
  pub dir_ext_nlink : ℕ
  pub dir_ext_size : ℕ
  pub file_ext_nlink : ℕ
  pub slink_nlink : ℕ
  pub slink_target_size : ℕ
  pub slink_ext_nlink : ℕ
  pub slink_ext_target_size : ℕ
  pub dev_nlink : ℕ
  pub dev_ext_nlink : ℕ
  pub ipc_nlink : ℕ
  pub ipc_ext_nlink : ℕ

pub record Inode : Type 0 where
  pub kind : InodeType
  pub mode : ℕ
  pub mod_time : ℕ
  pub inode_number : ℕ
  pub members : InodeData

-- S_IFDIR and the like, of sys/stat.h; 0 where the code adds none.
unfoldable pub file_type_bits : InodeType → ℕ
file_type_bits dir = 0o040000
file_type_bits ext_dir = 0o040000
file_type_bits file = 0o100000
file_type_bits ext_file = 0o100000
file_type_bits slink = 0o120000
file_type_bits ext_slink = 0o120000
file_type_bits bdev = 0o060000
file_type_bits ext_bdev = 0o060000
file_type_bits cdev = 0o020000
file_type_bits ext_cdev = 0o020000
file_type_bits fifo = 0o010000
file_type_bits ext_fifo = 0o010000
file_type_bits socket = 0o140000
file_type_bits ext_socket = 0o140000
file_type_bits other_type = 0

-- `mode & 07777` is `mode % 2 ^ 12`.
unfoldable pub sqfs_inode_mode : Inode → ℕ
unfolding file_type_bits
sqfs_inode_mode inode = bit_or (inode.mode % 2 ^ 12) (file_type_bits inode.kind)

nlink_of : InodeType → InodeData → ℕ
nlink_of dir d = d.dir_nlink
nlink_of ext_dir d = d.dir_ext_nlink
nlink_of ext_file d = d.file_ext_nlink
nlink_of slink d = d.slink_nlink
nlink_of ext_slink d = d.slink_ext_nlink
nlink_of bdev d = d.dev_nlink
nlink_of cdev d = d.dev_nlink
nlink_of ext_bdev d = d.dev_ext_nlink
nlink_of ext_cdev d = d.dev_ext_nlink
nlink_of fifo d = d.ipc_nlink
nlink_of socket d = d.ipc_nlink
nlink_of ext_fifo d = d.ipc_ext_nlink
nlink_of ext_socket d = d.ipc_ext_nlink
nlink_of _ d = 1

unfoldable pub sqfs_inode_nlink : Inode → ℕ
unfolding nlink_of
sqfs_inode_nlink inode = nlink_of inode.kind inode.members

abbrev size_or_zero : Option ℕ → ℕ
size_or_zero none = 0
size_or_zero (some size) = size

-- `file_size` is sqfs_inode_get_file_size of libsquashfs, `none` for an error.
size_of : InodeType → Option ℕ → InodeData → ℕ
size_of file file_size d = size_or_zero file_size
size_of ext_file file_size d = size_or_zero file_size
size_of dir file_size d = d.dir_size
size_of ext_dir file_size d = d.dir_ext_size
size_of slink file_size d = d.slink_target_size
size_of ext_slink file_size d = d.slink_ext_target_size
size_of _ file_size d = 0

unfoldable pub sqfs_inode_size : (Inode → Option ℕ) → Inode → ℕ
unfolding size_of
sqfs_inode_size get_file_size inode = size_of inode.kind (get_file_size inode) inode.members

-- The fields of struct stat that are set; memset clears the others.
pub record Stat : Type 0 where
  pub st_ino : ℕ
  pub st_mode : ℕ
  pub st_nlink : ℕ
  pub st_uid : ℕ
  pub st_gid : ℕ
  pub st_size : ℤ
  pub st_blksize : ℕ
  pub st_blocks : ℤ
  pub st_atim : ℤ
  pub st_mtim : ℤ
  pub st_ctim : ℤ

-- `bits` is the width of off_t, blkcnt_t and time_t: 32 or 64 by the build.
unfoldable pub sqfs_fill_stat : ℕ → (Inode → Option ℕ) → ℕ → Inode → Stat
unfolding sqfs_inode_mode sqfs_inode_nlink sqfs_inode_size
sqfs_fill_stat bits get_file_size block_size inode =
    let size = sqfs_inode_size get_file_size inode in
    let mtime = to_signed bits inode.mod_time in
    record {
      st_ino = inode.inode_number;
      st_mode = sqfs_inode_mode inode;
      st_nlink = sqfs_inode_nlink inode;
      st_uid = 0;
      st_gid = 0;
      st_size = to_signed bits size;
      st_blksize = block_size;
      st_blocks = to_signed bits ((size + 511) % 2 ^ 64 / 512);
      st_atim = mtime;
      st_mtim = mtime;
      st_ctim = mtime;
    }
