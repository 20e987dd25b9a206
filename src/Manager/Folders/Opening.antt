-- ===== src/Manager/Folders/Opening.antt =====
-- sqfs_mgr.c, sqfs_opendir.
use hooksqfs.Base.{ℕ, ◌+◌, Bool, true, false, not, Option, none, some, [], if◌then◌else◌, Str}
use hooksqfs.Errno.{SqfsError, errno_from_sqfs, enoent, enomem, enotdir}
use hooksqfs.Inode.{Inode}
use hooksqfs.Env.{Env, DirEntry}
use hooksqfs.Path.{path_max}
use hooksqfs.Manager.{
  M, ◌>>=◌, ◌>>◌, pure, get_errno, set_errno, call, sqfs_lock, sqfs_unlock, free_inode, created,
  destroyed, sqfs_mgr_loaded_locked, Check, refused, inside, sqfs_check_path_then_convert,
  sqfs_find_inode,
}
use hooksqfs.Manager.Backing.Folder.{create_backing_dir}
use hooksqfs.Manager.Folders.Enumerate.{is_directory, enumerate_dir, set_dir}

module _ (e : Env) where
  open e use {
    World, Reader, sizeof_dirent, libc_opendir, libc_readdir, libc_closedir, malloc, log_hook,
    log_msg, include_variable, dir_reader_create, dir_reader_open_dir, dir_reader_read,
    dir_reader_get_inode,
  }
  open e.dirs use {find, add, update, del}

  abbrev pub is_null : {A : Type 0} → Option A → Bool
  is_null none = true
  is_null (some a) = false

  -- The labels of sqfs_opendir; `found` is the inode, none for NULL.
  abbrev pub close_unused : Option ℕ → Option ℕ → ℕ → M e (Option ℕ)
  close_unused none result saved_errno = pure result
  close_unused (some underlying_dir) (some result) saved_errno = pure (some result)
  close_unused (some underlying_dir) none saved_errno =
      call (libc_closedir underlying_dir) >> set_errno saved_errno >> pure none

  abbrev pub out_unlock_only : Option ℕ → Option ℕ → M e (Option ℕ)
  out_unlock_only underlying_dir result = do
    saved_errno ← get_errno
    sqfs_unlock
    close_unused underlying_dir result saved_errno

  abbrev pub free_found : Option Inode → M e (Unit {0})
  free_found none = pure tt
  free_found (some inode) = free_inode

  abbrev pub out : Option ℕ → Option Inode → M e (Option ℕ)
  out underlying_dir found = do
    saved_errno ← get_errno
    free_found found
    destroyed
    set_errno saved_errno
    out_unlock_only underlying_dir none

  abbrev pub new_entry : Reader → Bool → DirEntry Reader
  new_entry reader is_real_dir = record {
    dir_reader = reader;
    is_real_dir = is_real_dir;
    dir_entry_list = [];
    dir_entry_current = [];
    dir_entry_list_reached_end = false;
  }

  abbrev pub add_dir : ℕ → DirEntry Reader → M e (Unit {0})
  add_dir key entry s =
      (tt, record s { dir_map = add key entry s.dir_map; dir_map_entries = s.dir_map_entries + 1 })

  -- From HASH_ADD_PTR on.
  abbrev pub enter_dir : ℕ → Reader → Bool → ℕ → M e (Option ℕ)
  enter_dir fuel reader is_real_dir underlying_dir = do
    add_dir underlying_dir (new_entry reader is_real_dir)
    nodes ← enumerate_dir e fuel reader []
    set_dir e underlying_dir (record (new_entry reader is_real_dir) { dir_entry_list = nodes })
    free_inode
    out_unlock_only (some underlying_dir) (some underlying_dir)

  abbrev pub with_dir_entry : ℕ → Reader → Inode → Bool → ℕ → Bool → M e (Option ℕ)
  with_dir_entry fuel reader inode is_real_dir underlying_dir false =
      set_errno enomem >> out (some underlying_dir) (some inode)
  with_dir_entry fuel reader inode is_real_dir underlying_dir true =
      enter_dir fuel reader is_real_dir underlying_dir

  abbrev pub with_underlying : ℕ → Reader → Inode → Bool → Option ℕ → M e (Option ℕ)
  with_underlying fuel reader inode is_real_dir none = out none (some inode)
  with_underlying fuel reader inode is_real_dir (some underlying_dir) =
      call malloc >>= with_dir_entry fuel reader inode is_real_dir underlying_dir

  abbrev pub underlying_or_backing : Option ℕ → M e (Option ℕ)
  underlying_or_backing none = create_backing_dir e
  underlying_or_backing (some underlying_dir) = pure (some underlying_dir)

  abbrev pub after_open_dir : ℕ → Reader → Inode → Option ℕ → Option SqfsError → M e (Option ℕ)
  after_open_dir fuel reader inode underlying_dir (some ret) =
      call log_msg >> set_errno (errno_from_sqfs ret) >> out underlying_dir (some inode)
  after_open_dir fuel reader inode underlying_dir none =
      underlying_or_backing underlying_dir
      >>= with_underlying fuel reader inode (not (is_null underlying_dir))

  abbrev pub with_found : ℕ → Reader → Option ℕ → Option Inode → M e (Option ℕ)
  with_found fuel reader none none s =
      (do saved_errno ← get_errno; call log_hook; set_errno saved_errno; out none none) s
  with_found fuel reader (some underlying_dir) none s =
      (do
        call log_hook
        destroyed
        set_errno 0
        out_unlock_only (some underlying_dir) (some underlying_dir))
        s
  with_found fuel reader underlying_dir (some inode) s =
      if not (is_directory inode.kind)
      then (set_errno enotdir >> out underlying_dir (some inode)) s
      else (call (dir_reader_open_dir reader inode)
            >>= after_open_dir fuel reader inode underlying_dir)
          s

  abbrev pub with_reader : ℕ → Option ℕ → Option Str → Option Reader → M e (Option ℕ)
  with_reader fuel underlying_dir relative none =
      set_errno enomem >> out_unlock_only underlying_dir none
  with_reader fuel underlying_dir relative (some reader) =
      created >> sqfs_find_inode e relative >>= with_found fuel reader underlying_dir

  -- The directory of the C library alone, if there is one.
  abbrev pub real_or_enoent : Option ℕ → M e (Option ℕ)
  real_or_enoent none = set_errno enoent >> pure none
  real_or_enoent (some underlying_dir) = set_errno 0 >> pure (some underlying_dir)

  abbrev pub opendir_loaded : ℕ → Option ℕ → Option Str → M e (Option ℕ)
  opendir_loaded fuel underlying_dir relative s =
      if not (sqfs_mgr_loaded_locked s)
      then (real_or_enoent underlying_dir >>= out_unlock_only underlying_dir) s
      else (call dir_reader_create >>= with_reader fuel underlying_dir relative) s

  abbrev pub opendir_sqfs : ℕ → Option ℕ → Check → M e (Option ℕ)
  opendir_sqfs fuel underlying_dir (refused ret) = real_or_enoent underlying_dir
  opendir_sqfs fuel underlying_dir (inside relative) =
      call log_hook >> sqfs_lock >> opendir_loaded fuel underlying_dir relative

  unfoldable pub sqfs_opendir : ℕ → Option Str → M e (Option ℕ)
  sqfs_opendir fuel name s =
      let (underlying_dir, t) = call (libc_opendir name) s in
      opendir_sqfs fuel underlying_dir
        (sqfs_check_path_then_convert e name (some []) path_max t.world) t
