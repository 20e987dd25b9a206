-- ===== src/Seek.antt =====
-- sqfs_mgr.c, the arithmetic of lseek: max_signed_value_for_size, sqfs_seek_add and
-- sqfs_seek_calculate. An int is 0 for success; here the success carries `*new_offset`.
pub mod Exact
mod Tests
use hooksqfs.Base.{ℕ, suc, ◌+◌, ◌-◌, ◌*◌, ◌%◌, ◌^◌, leb, ltb, if◌then◌else◌}
use hooksqfs.Base.Int.{ℤ, pos, negsuc}
use hooksqfs.Errno.{einval, enxio, eoverflow}

pub data Outcome : Type 0 where
  moves : ℕ → Outcome
  fails : ℕ → Outcome

pub data Whence : Type 0 where
  seek_set seek_cur seek_end seek_data seek_hole other_whence : Whence

abbrev pub u64_max : ℕ
u64_max = 2 ^ 64 - 1

abbrev pub i64_max : ℕ
i64_max = 2 ^ 63 - 1

-- `size` is a sizeof, in bytes of CHAR_BIT = 8 bits.
unfoldable pub max_signed_value_for_size : ℕ → ℕ
max_signed_value_for_size size = if leb 8 size then i64_max else 2 ^ (size * 8 - 1) - 1

-- For `negsuc n` the offset is -(n + 1), so -(offset + 1) is n.
pub sqfs_seek_add : ℕ → ℤ → Outcome
sqfs_seek_add base (negsuc n) =
    let distance = (n + 1) % 2 ^ 64 in
    if ltb base distance then fails einval else moves (base - distance)
sqfs_seek_add base (pos n) =
    if ltb ((u64_max + 2 ^ 64 - base) % 2 ^ 64) n
    then fails eoverflow
    else moves ((base + n) % 2 ^ 64)

-- `size` is sqfs_inode_size of the entry's inode, `old` the entry's offset.
unfoldable pub sqfs_seek_calculate : ℕ → ℕ → ℤ → Whence → Outcome
sqfs_seek_calculate size old offset seek_set = sqfs_seek_add 0 offset
sqfs_seek_calculate size old offset seek_cur = sqfs_seek_add old offset
sqfs_seek_calculate size old offset seek_end = sqfs_seek_add size offset
sqfs_seek_calculate size old (negsuc n) seek_data = fails einval
sqfs_seek_calculate size old (pos n) seek_data = if leb size n then fails enxio else moves n
sqfs_seek_calculate size old (negsuc n) seek_hole = fails einval
sqfs_seek_calculate size old (pos n) seek_hole = if ltb size n then fails enxio else moves size
sqfs_seek_calculate size old offset other_whence = fails einval
