-- ===== src/Inode/Mode.antt =====
-- sqfs_mgr.c, the mode and the sizes that sqfs_fill_stat reports.
use Prim.Native.Nat.{bit_or}
use mathlib.Core.Path.{subst}
use hooksqfs.Base.{
  ℕ, zero, suc, ◌+◌, ◌-◌, ◌*◌, ◌⊎◌, inl, inr, ◌/◌, ◌%◌, ◌^◌, ◌≤◌, ◌<◌, ◌≡◌, refl, sym, Bool, true,
  ◌&&◌, arith, ◌==◌, if◌then◌else◌, false, Option,
}
use hooksqfs.Base.Int.{pos, to_signed}
use hooksqfs.Inode.{
  Inode, InodeType, dir, ext_dir, file, ext_file, slink, ext_slink, bdev, ext_bdev, cdev, ext_cdev,
  fifo, ext_fifo, socket, ext_socket, other_type, file_type_bits, sqfs_inode_mode, sqfs_inode_size,
  sqfs_fill_stat,
}

every : (ℕ → Bool) → ℕ → Bool
every test zero = true
every test (suc last) = if test last then every test last else false

-- A test that holds of all modes below a bound holds of each.
every_at :
    (test : ℕ → Bool) (bound mode : ℕ) → mode < bound → every test bound ≡ true → test mode ≡ true
unfolding every
every_at test zero mode lt h = elim lt [ ]
every_at test (suc last) mode lt h = ground (arith, every_at test last mode)

abbrev joins : ℕ → ℕ → Bool
joins k m = bit_or m (k * 2 ^ 12) == m + k * 2 ^ 12

all_join : ℕ → Bool
all_join m =
    joins 0 m
    && joins 1 m
    && joins 2 m
    && joins 4 m
    && joins 6 m
    && joins 8 m
    && joins 10 m
    && joins 12 m

joins_table : every all_join 4096 ≡ true
unfolding every all_join
joins_table = refl

bit_or-add :
    (m : ℕ) (t : InodeType) → m < 2 ^ 12 → bit_or m (file_type_bits t) ≡ m + file_type_bits t
unfolding file_type_bits all_join
bit_or-add m t h = by_type t (every_at all_join 4096 m h joins_table)
  where
    by_type :
        (t : InodeType) → all_join m ≡ true → bit_or m (file_type_bits t) ≡ m + file_type_bits t
    by_type dir e = ground arith
    by_type t e = ground arith

-- The four bits of a mode that hold the type of a file, by inode(7): S_IFDIR, S_IFREG, S_IFLNK, S_IFBLK,
-- S_IFCHR, S_IFIFO and S_IFSOCK, shifted down by the twelve permission bits.
pub data HasFormat : InodeType → ℕ → Type 0 where
  directory : HasFormat dir 4
  ext_directory : HasFormat ext_dir 4
  regular : HasFormat file 8
  ext_regular : HasFormat ext_file 8
  link : HasFormat slink 10
  ext_link : HasFormat ext_slink 10
  block_device : HasFormat bdev 6
  ext_block_device : HasFormat ext_bdev 6
  character_device : HasFormat cdev 2
  ext_character_device : HasFormat ext_cdev 2
  pipe : HasFormat fifo 1
  ext_pipe : HasFormat ext_fifo 1
  unix_socket : HasFormat socket 12
  ext_unix_socket : HasFormat ext_socket 12
  unknown : HasFormat other_type 0

format_of : InodeType → ℕ
format_of t = file_type_bits t / 2 ^ 12

format_of-HasFormat : (t : InodeType) → HasFormat t (format_of t)
unfolding format_of file_type_bits
format_of-HasFormat dir = directory
format_of-HasFormat ext_dir = ext_directory
format_of-HasFormat file = regular
format_of-HasFormat ext_file = ext_regular
format_of-HasFormat slink = link
format_of-HasFormat ext_slink = ext_link
format_of-HasFormat bdev = block_device
format_of-HasFormat ext_bdev = ext_block_device
format_of-HasFormat cdev = character_device
format_of-HasFormat ext_cdev = ext_character_device
format_of-HasFormat fifo = pipe
format_of-HasFormat ext_fifo = ext_pipe
format_of-HasFormat socket = unix_socket
format_of-HasFormat ext_socket = ext_unix_socket
format_of-HasFormat other_type = unknown

mode-parts :
    (m : ℕ) (t : InodeType)
    → bit_or (m % 2 ^ 12) (file_type_bits t) ≡ m % 2 ^ 12 + file_type_bits t
    → (bit_or (m % 2 ^ 12) (file_type_bits t) % 2 ^ 12 ≡ m % 2 ^ 12)
      × (bit_or (m % 2 ^ 12) (file_type_bits t) / 2 ^ 12 ≡ format_of t)
unfolding format_of file_type_bits
mode-parts m dir e = omega arith
mode-parts m t e = omega arith

-- The reported mode has the permission bits of the inode, and above them the type of its file as
-- sys/stat.h numbers it; no bit of the inode's own mode above the twelve shows.
pub sqfs_inode_mode-parts :
    (inode : Inode)
    → (sqfs_inode_mode inode % 2 ^ 12 ≡ inode.mode % 2 ^ 12)
      × HasFormat inode.kind (sqfs_inode_mode inode / 2 ^ 12)
unfolding sqfs_inode_mode
sqfs_inode_mode-parts inode =
    let (permissions, format) =
      mode-parts inode.mode inode.kind
        (bit_or-add (inode.mode % 2 ^ 12) inode.kind (omega arith)) in
    (permissions, subst (λ n. HasFormat inode.kind n) (sym format) (format_of-HasFormat inode.kind))

size_fields :
    (bits s : ℕ)
    → (bits ≡ 32) ⊎ (bits ≡ 64)
    → s < 2 ^ (bits - 1)
    → (to_signed bits s ≡ pos s)
      × (to_signed bits ((s + 511) % 2 ^ 64 / 512) ≡ pos ((s + 511) / 512))
size_fields bits s (inl e) h = rw e (fields_32 s (subst (λ b. s < 2 ^ (b - 1)) e h))
  where
    fields_32 :
        (s : ℕ)
        → s < 2 ^ (32 - 1)
        → (to_signed 32 s ≡ pos s)
          × (to_signed 32 ((s + 511) % 2 ^ 64 / 512) ≡ pos ((s + 511) / 512))
    fields_32 s h = ground arith
size_fields bits s (inr e) h = rw e (fields_64 s (subst (λ b. s < 2 ^ (b - 1)) e h))
  where
    fields_64 :
        (s : ℕ)
        → s < 2 ^ (64 - 1)
        → (to_signed 64 s ≡ pos s)
          × (to_signed 64 ((s + 511) % 2 ^ 64 / 512) ≡ pos ((s + 511) / 512))
    fields_64 s h = ground arith

-- The sizes that stat reports where off_t, of 32 or 64 bits, holds the size of the inode: st_size is
-- that size, and st_blocks is the least number of blocks of 512 bytes that holds it.
pub sqfs_fill_stat-size :
    (bits : ℕ) (get : Inode → Option ℕ) (block_size : ℕ) (inode : Inode)
    → (bits ≡ 32) ⊎ (bits ≡ 64)
    → sqfs_inode_size get inode < 2 ^ (bits - 1)
    → let st = sqfs_fill_stat bits get block_size inode in
      let size = sqfs_inode_size get inode in
      (st.st_size ≡ pos size)
      × ((n : ℕ) × (st.st_blocks ≡ pos n) × (size ≤ n * 512) × (n * 512 < size + 512))
unfolding sqfs_fill_stat
sqfs_fill_stat-size bits get block_size inode b h =
    let size = sqfs_inode_size get inode in
    let fields = size_fields bits size b h in
    (fields.0, ((size + 511) / 512, fields.1, omega arith, omega arith))
