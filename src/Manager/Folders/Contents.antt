-- ===== src/Manager/Folders/Contents.antt =====
-- sqfs_mgr.c, sqfs_opendir and then sqfs_readdir of a directory of the image alone.
use mathlib.Core.Path.{subst}
use hooksqfs.Base.{
  ℕ, ◌+◌, ◌<◌, ◌≡◌, refl, sym, ap, ◌∙◌, true, false, Option, none, some, List, [], length, Str,
}
use hooksqfs.Inode.{Inode}
use hooksqfs.Env.Kernel.{OpenDirs}
use hooksqfs.Env.{Env, DirEntry}
use hooksqfs.Path.{path_max}
use hooksqfs.Manager.{
  State, call, Check, inside, sqfs_check_path_then_convert, sqfs_find_inode, sqfs_mgr_loaded_locked,
}
use hooksqfs.Manager.Effects.{sqfs_find_inode-Same, sqfs_find_inode-open}
use hooksqfs.Manager.Backing.Folder.{create_backing_dir}
use hooksqfs.Manager.Backing.Folder.Rules.{AllOpenDirs, IsNew, create_backing_dir-IsNew}
use hooksqfs.Manager.Folders.Enumerate.{is_directory, enumerate_dir}
use hooksqfs.Manager.Folders.Opening.{
  new_entry, enter_dir, with_underlying, opendir_sqfs, sqfs_opendir,
}
use hooksqfs.Manager.Folders.Listing.{Gives, nodes_of, enumerate_dir-Listed}
use hooksqfs.Manager.Folders.Cursor.{RealDir, Has, dirents, read_folder, stream, read_folder-stream}

module _ (e : Env) (os : OpenDirs e) (fuel k : ℕ) (real : RealDir e k) (reader : e.Reader)
    (g : Gives e reader) (xs : List (Str × Inode)) where
  -- A call that returned directory `k`, with these names to give.
  abbrev OpenDir : Option ℕ × State e → Type 0
  OpenDir (r, t) = (r ≡ some k) × Has e k real (dirents (nodes_of e xs)) t

  enter_dir-OpenDir :
      (s : State e)
      → e.dirs.find k s.dir_map ≡ none
      → g.left s.world ≡ xs
      → length xs < fuel
      → OpenDir (enter_dir e fuel reader false k s)
  enter_dir-OpenDir s new left h =
      let entry : DirEntry e.Reader = new_entry e reader false in
      let m = e.dirs.add k entry s.dir_map in
      let t : State e = record s { dir_map = m; dir_map_entries = s.dir_map_entries + 1 } in
      let r = enumerate_dir e fuel reader [] t in
      let (list, _, _, _, same) = enumerate_dir-Listed e reader g fuel [] xs t left h in
      let filled : DirEntry e.Reader = record entry { dir_entry_list = r.0 } in
      (
        refl,
        record {
          entry = filled;
          mapped =
              ap (λ n. e.dirs.find k (e.dirs.update k filled n)) same
              ∙ e.dirs.find-update k filled entry m (e.dirs.find-add k entry s.dir_map new);
          names_left = ap dirents (sym list);
        },
      )

  with_underlying-OpenDir :
      (inode : Inode) (u : Option ℕ) (s : State e)
      → u ≡ some k
      → (e.malloc s.world).value ≡ true
      → e.dirs.find k s.dir_map ≡ none
      → g.left s.world ≡ xs
      → length xs < fuel
      → OpenDir (with_underlying e fuel reader inode false u s)
  with_underlying-OpenDir inode u s made has new left h =
      rw made
        (rw has (enter_dir-OpenDir (call {e = e} e.malloc s).1 new ((g.memory s.world).1 ∙ left) h))

  -- The state after the lookup of the inode, from the state after the reader is created.
  abbrev pub looked_up : Option Str → State e → State e
  looked_up relative s =
      let t = call e.dir_reader_create s in
      (sqfs_find_inode e relative (record t.1 { readers = t.1.readers + 1 })).1

  -- The backing directory, after the reader is put on the inode.
  abbrev pub backed : Option Str → Inode → State e → Option ℕ × State e
  backed relative inode s =
      create_backing_dir e
        (call {e = e} (e.dir_reader_open_dir reader inode) (looked_up relative s)).1

  -- What the calls of opendir answer for a directory of the image.
  pub record Enumerable (relative : Option Str) (s : State e) : Type 0 where
    pub loaded : sqfs_mgr_loaded_locked s ≡ true
    pub creates : (e.dir_reader_create s.world).value ≡ some reader
    pub inode : Inode
    pub finds :
        let t = call {e = e} e.dir_reader_create s in
        (sqfs_find_inode e relative (record t.1 { readers = t.1.readers + 1 })).0 ≡ some inode
    pub is_folder : is_directory inode.kind ≡ true
    pub opens : (e.dir_reader_open_dir reader inode (looked_up relative s).world).value ≡ none
    pub backs : (backed relative inode s).0 ≡ some k
    pub allocates : (e.malloc (backed relative inode s).1.world).value ≡ true
    pub lists : g.left (backed relative inode s).1.world ≡ xs

  opendir_sqfs-OpenDir :
      (relative : Option Str) (c : Check) (s : State e)
      → c ≡ inside relative
      → AllOpenDirs e os s.dir_map s.world
      → Enumerable relative (record (call {e = e} e.log_hook s).1 { locks = s.locks + 1 })
      → length xs < fuel
      → OpenDir (opendir_sqfs e fuel none c s)
  opendir_sqfs-OpenDir relative c s is_inside n a h =
      let start : State e = record (call {e = e} e.log_hook s).1 { locks = s.locks + 1 } in
      let t = call {e = e} e.dir_reader_create start in
      let v : State e = record t.1 { readers = t.1.readers + 1 } in
      let same = (sqfs_find_inode-Same e relative v).0.dirs.1 in
      let o = call {e = e} (e.dir_reader_open_dir reader a.inode) (looked_up relative start) in
      let b = create_backing_dir e o.1 in
      let (frame, _, new) = create_backing_dir-IsNew e os s.dir_map o.1 (λ i f.
        (os.kept i).by_open_dir reader a.inode (looked_up relative start).world (
          sqfs_find_inode-open e (λ w. os.IsOpen w i) (os.kept i) relative v
            ((os.kept i).by_create start.world ((os.kept i).by_log_hook s.world (n i f))))) in
      rw (is_inside, a.loaded, a.creates, a.finds, a.is_folder, a.opens)
        (with_underlying-OpenDir a.inode b.0 b.1 a.backs a.allocates
          (ap (λ m. e.dirs.find k m) (frame.dirs.1 ∙ same)
            ∙ subst (λ r. IsNew e s.dir_map r) a.backs new)
          a.lists h)

  opendir-OpenDir :
      (name relative : Option Str) (s : State e)
      → (e.libc_opendir name s.world).value ≡ none
      → let t = (call {e = e} (e.libc_opendir name) s).1 in
        sqfs_check_path_then_convert e name (some []) path_max t.world ≡ inside relative
        → AllOpenDirs e os s.dir_map s.world
        → Enumerable relative (record (call {e = e} e.log_hook t).1 { locks = t.locks + 1 })
        → length xs < fuel
        → OpenDir (sqfs_opendir e fuel name s)
  unfolding sqfs_opendir
  opendir-OpenDir name relative s missing is_inside n a h =
      let t = (call {e = e} (e.libc_opendir name) s).1 in
      rw missing (
        opendir_sqfs-OpenDir relative
          (sqfs_check_path_then_convert e name (some []) path_max t.world) t is_inside
          (λ i f. (os.kept i).by_opendir name s.world (n i f)) a h)

  -- A directory of the image is opened and read: where the C library cannot open the path, the path is
  -- below the prefix, the lookup finds a directory with these names, memory and a backing directory are
  -- there, and the directories of the table are open to the C library, which gives out none that is,
  -- sqfs_opendir returns the backing directory, and reads of it give an entry for each name, with its
  -- inode number and its type, in order, and then NULL. The rounds of enumerate_dir are more than the
  -- names.
  pub sqfs_opendir-stream :
      (name relative : Option Str) (reads : ℕ) (s : State e)
      → (e.libc_opendir name s.world).value ≡ none
      → let t = (call {e = e} (e.libc_opendir name) s).1 in
        sqfs_check_path_then_convert e name (some []) path_max t.world ≡ inside relative
        → AllOpenDirs e os s.dir_map s.world
        → Enumerable relative (record (call {e = e} e.log_hook t).1 { locks = t.locks + 1 })
        → length xs < fuel
        → let (r, o) = sqfs_opendir e fuel name s in
          (r ≡ some k) × ((read_folder e reads k o).0 ≡ stream reads (dirents (nodes_of e xs)))
  sqfs_opendir-stream name relative reads s missing is_inside n a h =
      let (ret, has) = opendir-OpenDir name relative s missing is_inside n a h in
      (
        ret,
        read_folder-stream e k real reads (dirents (nodes_of e xs)) (sqfs_opendir e fuel name s).1
            has,
      )
