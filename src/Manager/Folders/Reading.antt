-- ===== src/Manager/Folders/Reading.antt =====
-- sqfs_mgr.c, sqfs_readdir and sqfs_closedir.
use hooksqfs.Base.{ℕ, ◌-◌, Bool, true, Option, none, some, List, [], ◌∷◌, if◌then◌else◌, codes}
use hooksqfs.Base.Int.{ℤ}
use hooksqfs.Env.{Env, Dirent, Node, DirEntry}
use hooksqfs.Logging.{log_enabled}
use hooksqfs.Manager.{M, ◌>>=◌, ◌>>◌, pure, call, sqfs_lock, sqfs_unlock, destroyed}
use hooksqfs.Manager.Folders.Enumerate.{free_sqfs_dir_entry_list, set_dir}

module _ (e : Env) where
  open e use {
    World, Reader, sizeof_dirent, libc_opendir, libc_readdir, libc_closedir, malloc, log_hook,
    log_msg, include_variable, dir_reader_create, dir_reader_open_dir, dir_reader_read,
    dir_reader_get_inode,
  }
  open e.dirs use {find, add, update, del}

  -- dump_dirent, if the call is logged.
  abbrev pub dump_dirent : Bool → M e (Unit {0})
  dump_dirent log_readdir s = if log_readdir then call log_msg s else (tt, s)

  abbrev pub list_if_null : List Node → List Node → List Node
  list_if_null [] nodes = nodes
  list_if_null (node ∷ current) nodes = node ∷ current

  abbrev pub ends : List Node → Bool → Bool
  ends [] reached_end = true
  ends (node ∷ nodes) reached_end = reached_end

  -- From the test of dir_entry_list_reached_end on.
  abbrev pub give_node : Bool → ℕ → DirEntry Reader → List Node → M e (Option Dirent)
  give_node log_readdir dirp entry [] = sqfs_unlock >> pure none
  give_node log_readdir dirp entry (node ∷ next) = do
    set_dir e dirp (record entry {
      dir_entry_current = next;
      dir_entry_list_reached_end = ends next entry.dir_entry_list_reached_end;
    })
    dump_dirent log_readdir
    sqfs_unlock
    pure (some node.dirent)

  abbrev pub next_node : Bool → ℕ → DirEntry Reader → M e (Option Dirent)
  next_node log_readdir dirp entry s =
      if entry.dir_entry_list_reached_end
      then (dump_dirent log_readdir >> sqfs_unlock >> pure none) s
      else give_node log_readdir dirp entry
          (list_if_null entry.dir_entry_current entry.dir_entry_list) s

  abbrev pub real_entry : Bool → ℕ → DirEntry Reader → Option Dirent → M e (Option Dirent)
  real_entry log_readdir dirp entry none = next_node log_readdir dirp entry
  real_entry log_readdir dirp entry (some result) =
      dump_dirent log_readdir >> sqfs_unlock >> pure (some result)

  abbrev pub readdir_entry : Bool → ℕ → Option (DirEntry Reader) → M e (Option Dirent)
  readdir_entry log_readdir dirp none s = (sqfs_unlock >> call (libc_readdir dirp)) s
  readdir_entry log_readdir dirp (some entry) s =
      if entry.is_real_dir
      then (call (libc_readdir dirp) >>= real_entry log_readdir dirp entry) s
      else next_node log_readdir dirp entry s

  unfoldable pub sqfs_readdir : ℕ → M e (Option Dirent)
  sqfs_readdir dirp s =
      let log_readdir = log_enabled (include_variable s.world) (some (codes "sqfs_readdir")) in
      (sqfs_lock >> readdir_entry log_readdir dirp (find dirp s.dir_map)) s

  abbrev pub forget_dir : ℕ → M e (Unit {0})
  forget_dir folder s = (tt, record s { dir_map = del folder s.dir_map })

  abbrev pub entry_memory_freed : M e (Unit {0})
  entry_memory_freed s = (tt, record s { dir_map_entries = s.dir_map_entries - 1 })

  -- HASH_DEL, sqfs_destroy of the reader, the list and free of the entry.
  abbrev pub drop_dir : ℕ → DirEntry Reader → M e (Unit {0})
  drop_dir folder entry = do
    forget_dir folder
    destroyed
    free_sqfs_dir_entry_list e entry.dir_entry_list
    entry_memory_freed

  abbrev pub closedir_entry : ℕ → Option (DirEntry Reader) → M e ℤ
  closedir_entry folder none = sqfs_unlock >> call (libc_closedir folder)
  closedir_entry folder (some entry) = do
    drop_dir folder entry
    call log_hook
    sqfs_unlock
    call (libc_closedir folder)

  unfoldable pub sqfs_closedir : ℕ → M e ℤ
  sqfs_closedir folder s = (sqfs_lock >> closedir_entry folder (find folder s.dir_map)) s
