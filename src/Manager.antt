-- ===== src/Manager.antt =====
-- sqfs_mgr.c: the state g_xSqfsMgr with the thread's errno and the outside world, and the helpers
-- that the entry points share. A function is a state transformer; `errno` is a field of the state.
pub mod Effects
pub mod Backing
pub mod Stats
pub mod Files
pub mod Folders
pub mod Image
pub mod Session
pub mod Sample
mod Tests
use hooksqfs.Base.{
  ℕ, suc, ◌+◌, ◌-◌, ◌≡◌, Bool, true, false, ◌&&◌, not, Option, none, some, List, [], ◌∷◌, ◌⊎◌, inl,
  inr, if◌then◌else◌, Str, codes,
}
use hooksqfs.Errno.{SqfsError, errno_from_sqfs, enoent, enomem, efault}
use hooksqfs.Inode.{Inode, Stat, sqfs_fill_stat}
use hooksqfs.Env.{Env, Reply}
use hooksqfs.Env.Uthash.{Table}
use hooksqfs.Path.{path_max, path_equals_normalized, path_relative_to_root}

-- `tmp_counter` and `dir_counter` are the counters of create_unlinked_tmp_fd and create_backing_dir in
-- utils.c.
-- `locks` is the depth of the recursive mutex in this thread. `inodes` and `readers` count the
-- inodes and the directory readers that libsquashfs allocated and the program has not freed, and so
-- `dir_entries` what sqfs_dir_reader_read allocated and `objects` the files, the compressors and the
-- data readers; `fd_entries`, `dir_map_entries` and `nodes` count the FDMapEntry, DirMapEntry and
-- SqfsDirEntryNode objects.
pub record State (e : Env) : Type 0 where
  pub errno : ℕ
  pub world : e.World
  pub locks : ℕ
  pub file : Bool
  pub compressor : Bool
  pub data_reader : Bool
  pub block_size : ℕ
  pub fd_map : e.fds.Map
  pub inodes : ℕ
  pub readers : ℕ
  pub fd_entries : ℕ
  pub tmp_counter : ℕ
  pub dir_map : e.dirs.Map
  pub dir_map_entries : ℕ
  pub nodes : ℕ
  pub dir_entries : ℕ
  pub dir_counter : ℕ
  pub objects : ℕ

abbrev pub M : Env → Type 0 → Type 0
M e A = State e → A × State e

abbrev pub or_errno : Option ℕ → ℕ → ℕ
or_errno none old = old
or_errno (some new) old = new

module _ {e : Env} where
  infixl 5 ◌>>=◌ ◌>>◌
  abbrev pub ◌>>=◌ : {A B : Type 0} → M e A → (A → M e B) → M e B
  (m >>= f) s = f (m s).0 (m s).1

  abbrev pub ◌>>◌ : {A B : Type 0} → M e A → M e B → M e B
  (m >> n) s = n (m s).1

  abbrev pub pure : {A : Type 0} → A → M e A
  pure a s = (a, s)

  abbrev pub get_errno : M e ℕ
  get_errno s = (s.errno, s)

  abbrev pub set_errno : ℕ → M e (Unit {0})
  set_errno n s = (tt, record s { errno = n })

  -- A call of the outside.
  abbrev pub call : {A : Type 0} → (e.World → Reply e.World A) → M e A
  call f s =
      let r = f s.world in (r.value, record s { world = r.world; errno = or_errno r.errno s.errno })

  abbrev pub sqfs_lock : M e (Unit {0})
  sqfs_lock s = (tt, record s { locks = s.locks + 1 })

  abbrev pub sqfs_unlock : M e (Unit {0})
  sqfs_unlock s = (tt, record s { locks = s.locks - 1 })

  abbrev pub sqfs_mgr_loaded_locked : State e → Bool
  sqfs_mgr_loaded_locked s = s.file && s.compressor && s.data_reader

  -- sqfs_free of an inode that is not NULL.
  abbrev pub free_inode : M e (Unit {0})
  free_inode s = (tt, record s { inodes = s.inodes - 1 })

  abbrev created : M e (Unit {0})
  created s = (tt, record s { readers = s.readers + 1 })

  abbrev destroyed : M e (Unit {0})
  destroyed s = (tt, record s { readers = s.readers - 1 })

  abbrev allocated : M e (Unit {0})
  allocated s = (tt, record s { inodes = s.inodes + 1 })

-- `inside` carries what the buffer `relative_out` holds.
pub data Check : Type 0 where
  refused : ℕ → Check
  inside : Option Str → Check

abbrev or_default : Option Str → Str
or_default none = codes "/hook"
or_default (some prefix) = prefix

abbrev checked : Option (Option Str) → Check
checked none = refused enoent
checked (some out) = inside out

module _ (e : Env) where
  open e use {
    World, file_variable, prefix_variable, dir_reader_create, get_root_inode, find_by_path, Reader,
    bits, get_file_size,
  }

  abbrev pub sqfs_mgr_get_prefix : World → Str
  sqfs_mgr_get_prefix w = or_default (prefix_variable w)

  pub sqfs_check_path_then_convert : Option Str → Option Str → ℕ → World → Check
  sqfs_check_path_then_convert none relative_out len w = refused efault
  sqfs_check_path_then_convert (some pathname) relative_out len w =
      if path_equals_normalized (some pathname) (file_variable w)
      then refused enoent
      else checked
          (path_relative_to_root (some (sqfs_mgr_get_prefix w)) (some pathname) relative_out len)

  -- `relative[0] == '\0'` asks for the root.
  abbrev pub look_up : Reader → Str → World → Reply World (SqfsError ⊎ Inode)
  look_up reader [] w = get_root_inode reader w
  look_up reader (c ∷ s) w = find_by_path reader (c ∷ s) w

  abbrev pub found : SqfsError ⊎ Inode → M e (Option Inode)
  found (inl ret) = set_errno (errno_from_sqfs ret) >> pure none
  found (inr inode) = allocated >> pure (some inode)

  abbrev pub find_with : Str → Option Reader → M e (Option Inode)
  find_with relative none = set_errno enomem >> pure none
  find_with relative (some reader) = do
    created
    ret ← call (look_up reader relative)
    destroyed
    found ret

  pub sqfs_find_inode : Option Str → M e (Option Inode)
  sqfs_find_inode none s = (set_errno efault >> pure none) s
  sqfs_find_inode (some relative) s =
      if not (sqfs_mgr_loaded_locked s)
      then (set_errno enoent >> pure none) s
      else (call dir_reader_create >>= find_with relative) s

  abbrev stat_of : Option Inode → M e (Option Stat)
  stat_of none s = (none, s)
  stat_of (some inode) s =
      (free_inode >> pure (some (sqfs_fill_stat bits get_file_size s.block_size inode))) s

  -- `some` for true, with the stat structure that is filled.
  pub sqfs_stat_impl : Option Str → M e (Option Stat)
  sqfs_stat_impl relative = sqfs_find_inode relative >>= stat_of
