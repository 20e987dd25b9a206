-- ===== src/Inode/Tests.antt =====
-- The fields of stat for a directory and for a file of a concrete size.
use hooksqfs.Base.{ℕ, ◌+◌, ◌*◌, ◌/◌, ◌%◌, ◌^◌, ◌≤◌, ◌<◌, ◌≡◌, refl, inl, some, arith}
use hooksqfs.Base.Int.{pos}
use hooksqfs.Inode.{Inode, InodeData, dir, file, sqfs_inode_mode, sqfs_inode_size, sqfs_fill_stat}
use hooksqfs.Inode.Mode.{HasFormat, sqfs_inode_mode-parts, sqfs_fill_stat-size}

abbrev no_members : InodeData
no_members = record {
  dir_nlink = 0;
  dir_size = 0;
  dir_ext_nlink = 0;
  dir_ext_size = 0;
  file_ext_nlink = 0;
  slink_nlink = 0;
  slink_target_size = 0;
  slink_ext_nlink = 0;
  slink_ext_target_size = 0;
  dev_nlink = 0;
  dev_ext_nlink = 0;
  ipc_nlink = 0;
  ipc_ext_nlink = 0;
}

abbrev a_directory : Inode
a_directory = record {
  kind = dir;
  mode = 0o40755;
  mod_time = 1;
  inode_number = 1;
  members = no_members;
}

abbrev a_file : Inode
a_file = record a_directory { kind = file; mode = 0o644 }

sqfs_inode_mode-parts_example :
    (sqfs_inode_mode a_directory % 2 ^ 12 ≡ 0o40755 % 2 ^ 12)
    × HasFormat dir (sqfs_inode_mode a_directory / 2 ^ 12)
sqfs_inode_mode-parts_example = sqfs_inode_mode-parts a_directory

sqfs_fill_stat-size_example :
    let st = sqfs_fill_stat 32 (λ i. some 1000) 4096 a_file in
    (st.st_size ≡ pos (sqfs_inode_size (λ i. some 1000) a_file))
    × ((n : ℕ) × (st.st_blocks ≡ pos n)
        × (sqfs_inode_size (λ i. some 1000) a_file ≤ n * 512)
        × (n * 512 < sqfs_inode_size (λ i. some 1000) a_file + 512))
unfolding sqfs_inode_size
sqfs_fill_stat-size_example =
    sqfs_fill_stat-size 32 (λ i. some 1000) 4096 a_file (inl refl) (omega arith)
