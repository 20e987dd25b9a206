-- ===== src/Manager/Folders/Tests.antt =====
-- A directory of the sample image.
use hooksqfs.Base.{
  ◌+◌, ◌%◌, none, ◌≢◌, ◌<◌, Bool-cases, inl, inr, ◌/◌, ℕ, ◌≡◌, refl, false, some, List, [], ◌∷◌,
  arith, if◌then◌else◌, ◌==◌, Str, codes,
}
use hooksqfs.Inode.{Inode}
use hooksqfs.Env.{DirEntry}
use hooksqfs.Logging.{log_enabled}
use hooksqfs.Path.{path_equals_normalized, path_relative_to_root}
use hooksqfs.Manager.{State, sqfs_check_path_then_convert, sqfs_find_inode}
use hooksqfs.Env.Assoc.{find, nat_key}
use hooksqfs.Manager.Sample.{sample_dirs, sample, sample_file, sample_root, idle}
use hooksqfs.Manager.Backing.Folder.{create_backing_dir}
use hooksqfs.Manager.Folders.Enumerate.{enumerate_dir}
use hooksqfs.Manager.Folders.Opening.{sqfs_opendir}
use hooksqfs.Base.{str_eq}
use hooksqfs.Errno.{enoent}
use hooksqfs.Manager.Folders.Contents.{Enumerable, sqfs_opendir-stream}
use hooksqfs.Manager.Folders.Listing.{Gives, Listed, nodes_of, enumerate_dir-Listed}
use hooksqfs.Manager.Folders.Cursor.{RealDir, Has, read_folder, stream, dirents, read_folder-stream}

opens_in_image : (sqfs_opendir sample 3 (some (codes "/hook")) idle).0 ≡ some 7
unfolding sqfs_opendir sqfs_find_inode sqfs_check_path_then_convert path_equals_normalized
    path_relative_to_root create_backing_dir enumerate_dir log_enabled
opens_in_image = refl

abbrev names : List (Str × Inode)
names = (codes "f", sample_file) ∷ (codes "g", sample_file) ∷ []

abbrev names_after : ℕ → List (Str × Inode)
names_after w =
    if w % 4 == 0 then names else if w % 4 == 1 then (codes "g", sample_file) ∷ [] else []

abbrev gives : Gives sample tt
gives = record {
  left = names_after;
  last = λ w. some sample_file;
  read_end = λ w h. ground arith;
  read_name = λ w x xs h. ground arith;
  memory = λ w. (refl, refl, refl);
  inode_of = λ w inode h. (ground arith, refl);
}

enumerate_dir-Listed_example :
    Listed sample (nodes_of sample names) 2 idle (enumerate_dir sample 5 tt [] idle)
enumerate_dir-Listed_example =
    enumerate_dir-Listed sample tt gives 5 [] names idle refl (omega arith)

-- The directories of the C library are empty.
abbrev real : {k : ℕ} → RealDir sample k
real = record { left = λ w. []; gives = λ w. refl; moves = λ w. refl; unlogged = λ w. refl }

abbrev folder : DirEntry (Unit {0})
folder = record {
  dir_reader = tt;
  is_real_dir = false;
  dir_entry_list = nodes_of sample names;
  dir_entry_current = [];
  dir_entry_list_reached_end = false;
}

abbrev listing : State sample
listing = record idle {
  dir_map = (7, folder) ∷ [];
  dir_map_entries = 1;
  inodes = 2;
  nodes = 2;
  readers = 1;
}

has : Has sample 7 real (dirents (nodes_of sample names)) listing
has = record { entry = folder; mapped = refl; names_left = refl }

read_folder-stream_example :
    (read_folder sample 3 7 listing).0 ≡ stream 3 (dirents (nodes_of sample names))
read_folder-stream_example =
    read_folder-stream sample 7 real 3 (dirents (nodes_of sample names)) listing has

-- The directory 7 is open already, and stays in the table.
abbrev busy : State sample
busy = record listing { world = 4 }

root-Enumerable :
    Enumerable sample sample_dirs 5 8 real tt gives names
      (some [])
      (record busy { errno = enoent; locks = 1 })
unfolding sqfs_find_inode create_backing_dir str_eq
root-Enumerable = record {
  loaded = refl;
  creates = refl;
  inode = sample_root;
  finds = refl;
  is_folder = refl;
  opens = refl;
  backs = refl;
  allocates = refl;
  lists = refl;
}

all_open : (k : ℕ) → find nat_key k busy.dir_map ≢ none → k < 7 + 4 / 4
all_open k h = elim (Bool-cases (k == 7)) [ inl b ↦ ground arith | inr b ↦ absurd (h (rw b refl)) ]

sqfs_opendir-stream_example :
    let (r, o) = sqfs_opendir sample 5 (some (codes "/hook")) busy in
    (r ≡ some 8) × ((read_folder sample 3 8 o).0 ≡ stream 3 (dirents (nodes_of sample names)))
unfolding sqfs_check_path_then_convert path_equals_normalized path_relative_to_root str_eq
sqfs_opendir-stream_example =
    sqfs_opendir-stream sample sample_dirs 5 8 real tt gives names (some (codes "/hook")) (some [])
      3 busy refl refl all_open root-Enumerable (omega arith)
