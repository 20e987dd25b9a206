-- ===== src/Manager/Image/Tests.antt =====
-- A load of the sample image.
use hooksqfs.Base.{◌≡◌, refl, true, false, some, [], codes}
use hooksqfs.Env.{Env}
use hooksqfs.Manager.{State}
use hooksqfs.Manager.Sample.{sample, sample_super}
use hooksqfs.Manager.Image.{sqfs_mgr_unload_image, sqfs_mgr_load_image}
use hooksqfs.Manager.Image.Success.{Willing, sqfs_mgr_load_image-unload}
use hooksqfs.Manager.Image.Loading.{Loaded, Apart, sqfs_mgr_load_image-Loaded}

-- The sample where the image has a name.
abbrev named : Env
named = record sample { file_variable = λ w. some (codes "/i") }

abbrev empty : State named
empty = record {
  errno = 0;
  world = 0;
  locks = 0;
  file = false;
  compressor = false;
  data_reader = false;
  block_size = 0;
  fd_map = [];
  inodes = 0;
  readers = 0;
  fd_entries = 0;
  tmp_counter = 0;
  dir_map = [];
  dir_map_entries = 0;
  nodes = 0;
  dir_entries = 0;
  dir_counter = 0;
  objects = 2;
}

empty-Loaded : Loaded named false 2 empty
empty-Loaded = record { file = refl; compressor = refl; data_reader = refl; objects = refl }

willing : Willing named (codes "/i") sample_super
willing = record {
  opens = λ w. refl;
  reads = λ w. refl;
  configures = λ w. refl;
  compresses = λ w. refl;
  options = λ w. refl;
  creates = λ w. refl;
  loads = λ w. refl;
}

sqfs_mgr_load_image-Loaded_example :
    let (ok, t) = sqfs_mgr_load_image named empty in
    Loaded named ok 2 t × Apart named empty t × (false ≡ true → ok ≡ true)
sqfs_mgr_load_image-Loaded_example = sqfs_mgr_load_image-Loaded named 2 false empty empty-Loaded

sqfs_mgr_load_image-unload_example :
    let (ok, t) = sqfs_mgr_load_image named empty in
    (ok ≡ true) × (t.block_size ≡ 131072) × Loaded named false 2 (sqfs_mgr_unload_image named t).1
sqfs_mgr_load_image-unload_example =
    sqfs_mgr_load_image-unload named 2 (codes "/i") sample_super empty empty-Loaded willing refl
