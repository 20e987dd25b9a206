-- ===== src/Manager/Folders/Balance.antt =====
-- sqfs_mgr.c, opendir: the mutex and the memory over a whole call.
use mathlib.Core.Path.{subst}
use hooksqfs.Base.{
  ℕ, ◌+◌, ◌≡◌, ◌≢◌, sym, inl, inr, Bool, true, false, Option, none, some, [], arith, Bool-cases,
  Str,
}
use hooksqfs.Errno.{SqfsError, enomem}
use hooksqfs.Inode.{Inode}
use hooksqfs.Env.{Env, DirEntry}
use hooksqfs.Env.Kernel.{OpenDirs}
use hooksqfs.Path.{path_max}
use hooksqfs.Manager.{
  State, call, Check, refused, inside, sqfs_find_inode, sqfs_check_path_then_convert,
  sqfs_mgr_loaded_locked,
}
use hooksqfs.Manager.Effects.{held, sqfs_find_inode-Same, sqfs_find_inode-open}
use hooksqfs.Manager.Backing.Folder.{create_backing_dir}
use hooksqfs.Manager.Backing.Folder.Rules.{
  AllOpenDirs, IsNew, libc_opendir-IsNew, create_backing_dir-IsNew,
}
use hooksqfs.Manager.Folders.Enumerate.{is_directory, enumerate_dir}
use hooksqfs.Manager.Folders.Opening.{
  out, out_unlock_only, new_entry, enter_dir, with_dir_entry, with_underlying, after_open_dir,
  with_found, with_reader, real_or_enoent, opendir_loaded, opendir_sqfs, sqfs_opendir,
}
use hooksqfs.Manager.Folders.Ledger.{Ledger, listed, enumerate_dir-Lists}

module _ (e : Env) (o : OpenDirs e) (others spare d : ℕ) where
  -- The ledger after a call, with nothing held and the mutex as deep as before it.
  abbrev Settled : {A : Type 0} → A × State e → Type 0
  Settled r = Ledger e others spare 0 0 d r.1

  out_unlock_only-Settled :
      (underlying_dir result : Option ℕ) (s : State e)
      → Ledger e others spare 0 0 (d + 1) s
      → Settled (out_unlock_only e underlying_dir result s)
  out_unlock_only-Settled none result s h = ground arith
  out_unlock_only-Settled (some u) none s h = ground arith
  out_unlock_only-Settled (some u) (some r) s h = ground arith

  out-Settled :
      (underlying_dir : Option ℕ) (found : Option Inode) (s : State e)
      → Ledger e others spare (held found) 1 (d + 1) s
      → Settled (out e underlying_dir found s)
  out-Settled none none s h = ground arith
  out-Settled none (some inode) s h = ground arith
  out-Settled (some u) none s h = ground arith
  out-Settled (some u) (some inode) s h = ground arith

  enter_dir-Settled :
      (fuel : ℕ) (reader : e.Reader) (is_real_dir : Bool) (key : ℕ) (s : State e)
      → Ledger e others spare 1 1 (d + 1) s
      → e.dirs.find key s.dir_map ≡ none
      → Settled (enter_dir e fuel reader is_real_dir key s)
  enter_dir-Settled fuel reader is_real_dir key s h new =
      let entry : DirEntry e.Reader = new_entry e reader is_real_dir in
      let m = e.dirs.add key entry s.dir_map in
      let t : State e = record s { dir_map = m; dir_map_entries = s.dir_map_entries + 1 } in
      let start : Ledger e others spare 1 0 (d + 1) t = ground (
        arith,
        h.inodes,
        e.dirs.count-add key entry s.dir_map,
        e.dirs.total-add (listed e) key entry s.dir_map,
      ) in
      let (nodes, u) = enumerate_dir e fuel reader [] t in
      let (full, same) =
        enumerate_dir-Lists e others spare m 1 0 (d + 1) fuel reader [] t (ground (arith, start)) in
      let filled : DirEntry e.Reader = record entry { dir_entry_list = nodes } in
      ground (
        arith,
        full,
        same,
        e.dirs.count-update key filled m,
        e.dirs.total-update (listed e) key filled entry m (e.dirs.find-add key entry s.dir_map new),
      )

  with_dir_entry-Settled :
      (fuel : ℕ) (reader : e.Reader) (inode : Inode) (is_real_dir : Bool) (key : ℕ) (b : Bool)
      (s : State e)
      → Ledger e others spare 1 1 (d + 1) s
      → e.dirs.find key s.dir_map ≡ none
      → Settled (with_dir_entry e fuel reader inode is_real_dir key b s)
  with_dir_entry-Settled fuel reader inode is_real_dir key false s h new =
      out-Settled (some key) (some inode) (record s { errno = enomem }) (ground arith)
  with_dir_entry-Settled fuel reader inode is_real_dir key true s h new =
      enter_dir-Settled fuel reader is_real_dir key s h new

  with_underlying-Settled :
      (fuel : ℕ) (reader : e.Reader) (inode : Inode) (is_real_dir : Bool) (u : Option ℕ)
      (s : State e)
      → Ledger e others spare 1 1 (d + 1) s
      → IsNew e s.dir_map u
      → Settled (with_underlying e fuel reader inode is_real_dir u s)
  with_underlying-Settled fuel reader inode is_real_dir none s h new =
      out-Settled none (some inode) s h
  with_underlying-Settled fuel reader inode is_real_dir (some key) s h new =
      let r = call {e = e} e.malloc s in
      with_dir_entry-Settled fuel reader inode is_real_dir key r.0 r.1 (ground arith) new

  after_open_dir-Settled :
      (fuel : ℕ) (reader : e.Reader) (inode : Inode) (u : Option ℕ) (ret : Option SqfsError)
      (s : State e)
      → AllOpenDirs e o s.dir_map s.world
      → Ledger e others spare 1 1 (d + 1) s
      → IsNew e s.dir_map u
      → Settled (after_open_dir e fuel reader inode u ret s)
  after_open_dir-Settled fuel reader inode u (some ret) s n h new =
      out-Settled u (some inode) _ (ground arith)
  after_open_dir-Settled fuel reader inode (some key) none s n h new =
      with_underlying-Settled fuel reader inode true (some key) s h new
  after_open_dir-Settled fuel reader inode none none s n h new =
      let r = create_backing_dir e s in
      let (same, kept, made) = create_backing_dir-IsNew e o s.dir_map s n in
      with_underlying-Settled fuel reader inode false r.0 r.1
        (ground (arith, same.fd_map, same.fd_entries, same.locks, same.dirs, kept))
        (subst (λ m. IsNew e m r.0) (sym same.dirs.1) made)

  with_found-Settled :
      (fuel : ℕ) (reader : e.Reader) (u : Option ℕ) (found : Option Inode) (s : State e)
      → AllOpenDirs e o s.dir_map s.world
      → Ledger e others spare (held found) 1 (d + 1) s
      → IsNew e s.dir_map u
      → Settled (with_found e fuel reader u found s)
  with_found-Settled fuel reader none none s n h new = out-Settled none none _ (ground arith)
  with_found-Settled fuel reader (some key) none s n h new =
      out_unlock_only-Settled (some key) (some key) _ (ground arith)
  with_found-Settled fuel reader u (some inode) s n h new =
      elim (Bool-cases (is_directory inode.kind)) [
        | inl b ↦ rw b (
            let r = call {e = e} (e.dir_reader_open_dir reader inode) s in
            after_open_dir-Settled fuel reader inode u r.0 r.1
              (λ k h. (o.kept k).by_open_dir reader inode s.world (n k h)) (ground arith) new)
        | inr b ↦ rw b (out-Settled u (some inode) _ (ground arith))
      ]

  with_reader-Settled :
      (fuel : ℕ) (u : Option ℕ) (relative : Option Str) (reader : Option e.Reader) (s : State e)
      → AllOpenDirs e o s.dir_map s.world
      → Ledger e others spare 0 0 (d + 1) s
      → IsNew e s.dir_map u
      → Settled (with_reader e fuel u relative reader s)
  with_reader-Settled fuel u relative none s n h new =
      out_unlock_only-Settled u none _ (ground arith)
  with_reader-Settled fuel u relative (some reader) s n h new =
      let start : State e = record s { readers = s.readers + 1 } in
      let r = sqfs_find_inode e relative start in
      let (same, more) = sqfs_find_inode-Same e relative start in
      with_found-Settled fuel reader u r.0 r.1
        (λ k h.
          sqfs_find_inode-open e (λ w. o.IsOpen w k) (o.kept k) relative start
            (n k (subst (λ m. e.dirs.find k m ≢ none) same.dirs.1 h)))
        (ground (arith, same.fd_map, same.fd_entries, same.locks, same.dirs, more))
        (subst (λ m. IsNew e m u) (sym same.dirs.1) new)

  real_or_enoent-Settled :
      (u : Option ℕ) (s : State e)
      → Ledger e others spare 0 0 (d + 1) s
      → let r = real_or_enoent e u s in Settled (out_unlock_only e u r.0 r.1)
  real_or_enoent-Settled none s h = ground arith
  real_or_enoent-Settled (some u) s h = ground arith

  opendir_loaded-Settled :
      (fuel : ℕ) (u : Option ℕ) (relative : Option Str) (s : State e)
      → AllOpenDirs e o s.dir_map s.world
      → Ledger e others spare 0 0 (d + 1) s
      → IsNew e s.dir_map u
      → Settled (opendir_loaded e fuel u relative s)
  opendir_loaded-Settled fuel u relative s n h new = elim (Bool-cases (sqfs_mgr_loaded_locked s)) [
    | inl b ↦ rw b (
        let r = call {e = e} e.dir_reader_create s in
        with_reader-Settled fuel u relative r.0 r.1 (λ k h. (o.kept k).by_create s.world (n k h))
          (ground arith) new)
    | inr b ↦ rw b (real_or_enoent-Settled u s h)
  ]

  opendir_sqfs-Settled :
      (fuel : ℕ) (u : Option ℕ) (c : Check) (s : State e)
      → AllOpenDirs e o s.dir_map s.world
      → Ledger e others spare 0 0 d s
      → IsNew e s.dir_map u
      → Settled (opendir_sqfs e fuel u c s)
  opendir_sqfs-Settled fuel none (refused ret) s n h new = ground arith
  opendir_sqfs-Settled fuel (some u) (refused ret) s n h new = ground arith
  opendir_sqfs-Settled fuel u (inside relative) s n h new =
      let r = call {e = e} e.log_hook s in
      opendir_loaded-Settled fuel u relative (record r.1 { locks = s.locks + 1 })
        (λ k h. (o.kept k).by_log_hook s.world (n k h)) (ground arith) new

  pub sqfs_opendir-Ledger :
      (fuel : ℕ) (name : Option Str) (s : State e)
      → AllOpenDirs e o s.dir_map s.world
      → Ledger e others spare 0 0 d s
      → Ledger e others spare 0 0 d (sqfs_opendir e fuel name s).1
  unfolding sqfs_opendir
  sqfs_opendir-Ledger fuel name s n h =
      let r = call {e = e} (e.libc_opendir name) s in
      opendir_sqfs-Settled fuel r.0
        (sqfs_check_path_then_convert e name (some []) path_max r.1.world) r.1
        (λ k h. (o.kept k).by_opendir name s.world (n k h)) (ground arith)
        (libc_opendir-IsNew e o s.dir_map name s.world n)
