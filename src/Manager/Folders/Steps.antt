-- ===== src/Manager/Folders/Steps.antt =====
-- sqfs_mgr.c, readdir and closedir: the mutex and the memory over a whole call.
use mathlib.Core.Path.{subst}
use hooksqfs.Base.{
  ap, ℕ, ◌+◌, ◌-◌, ◌≡◌, inl, inr, Bool, true, false, Option, none, some, List, [], ◌∷◌, arith,
  length, Bool-cases, Option-cases,
}
use hooksqfs.Env.{Env, Node, DirEntry, Dirent}
use hooksqfs.Manager.{State, call}
use hooksqfs.Manager.Folders.Reading.{
  ends, dump_dirent, give_node, next_node, real_entry, readdir_entry, closedir_entry, sqfs_readdir,
  sqfs_closedir,
}
use hooksqfs.Manager.Folders.Ledger.{Ledger, listed, free_list-Ledger, free_list_frame}

module _ (e : Env) (others spare d : ℕ) where
  abbrev Settled : {A : Type 0} → A × State e → Type 0
  Settled r = Ledger e others spare 0 0 d r.1

  dump_dirent-Ledger :
      (log_readdir : Bool) (s : State e)
      → Ledger e others spare 0 0 (d + 1) s
      → Ledger e others spare 0 0 (d + 1) (dump_dirent e log_readdir s).1
  dump_dirent-Ledger true s h = ground arith
  dump_dirent-Ledger false s h = h

  unlocked-Ledger :
      (s : State e)
      → Ledger e others spare 0 0 (d + 1) s
      → Ledger e others spare 0 0 d (record s { locks = s.locks - 1 })
  unlocked-Ledger s h = ground arith

  -- The state inside a call that has found an entry.
  record Found (dirp : ℕ) (entry : DirEntry e.Reader) (s : State e) : Type 0 where
    ledger : Ledger e others spare 0 0 (d + 1) s
    mapped : e.dirs.find dirp s.dir_map ≡ some entry

  give_node-Settled :
      (log_readdir : Bool) (dirp : ℕ) (entry : DirEntry e.Reader) (nodes : List Node) (s : State e)
      → Found dirp entry s
      → Settled (give_node e log_readdir dirp entry nodes s)
  give_node-Settled log_readdir dirp entry [] s h = unlocked-Ledger s h.ledger
  give_node-Settled log_readdir dirp entry (node ∷ next) s h =
      let moved : DirEntry e.Reader = record entry {
        dir_entry_current = next;
        dir_entry_list_reached_end = ends e next entry.dir_entry_list_reached_end;
      } in
      let t : State e = record s { dir_map = e.dirs.update dirp moved s.dir_map } in
      let kept : Ledger e others spare 0 0 (d + 1) t = ground (
        arith,
        h.ledger,
        e.dirs.count-update dirp moved s.dir_map,
        e.dirs.total-update (listed e) dirp moved entry s.dir_map h.mapped,
      ) in
      unlocked-Ledger (dump_dirent e log_readdir t).1 (dump_dirent-Ledger log_readdir t kept)

  next_node-Settled :
      (log_readdir : Bool) (dirp : ℕ) (entry : DirEntry e.Reader) (s : State e)
      → Found dirp entry s
      → Settled (next_node e log_readdir dirp entry s)
  next_node-Settled log_readdir dirp entry s h =
      elim (Bool-cases entry.dir_entry_list_reached_end) [
        | inl b ↦ rw b (
            unlocked-Ledger (dump_dirent e log_readdir s).1
              (dump_dirent-Ledger log_readdir s h.ledger))
        | inr b ↦ simp b (give_node-Settled log_readdir dirp entry _ s h)
      ]

  real_entry-Settled :
      (log_readdir : Bool) (dirp : ℕ) (entry : DirEntry e.Reader) (result : Option Dirent)
      (s : State e)
      → Found dirp entry s
      → Settled (real_entry e log_readdir dirp entry result s)
  real_entry-Settled log_readdir dirp entry none s h = next_node-Settled log_readdir dirp entry s h
  real_entry-Settled log_readdir dirp entry (some result) s h =
      unlocked-Ledger (dump_dirent e log_readdir s).1 (dump_dirent-Ledger log_readdir s h.ledger)

  readdir_entry-Settled :
      (log_readdir : Bool) (dirp : ℕ) (entry : DirEntry e.Reader) (s : State e)
      → Found dirp entry s
      → Settled (readdir_entry e log_readdir dirp (some entry) s)
  readdir_entry-Settled log_readdir dirp entry s h = elim (Bool-cases entry.is_real_dir) [
    | inl b ↦ simp b (
        let r = call {e = e} (e.libc_readdir dirp) s in
        real_entry-Settled log_readdir dirp entry r.0 r.1
          (record { ledger = ground (arith, h.ledger); mapped = h.mapped }))
    | inr b ↦ simp b (next_node-Settled log_readdir dirp entry s h)
  ]

  pub sqfs_readdir-Ledger :
      (dirp : ℕ) (s : State e)
      → Ledger e others spare 0 0 d s
      → Ledger e others spare 0 0 d (sqfs_readdir e dirp s).1
  unfolding sqfs_readdir
  sqfs_readdir-Ledger dirp s h = elim (Option-cases (e.dirs.find dirp s.dir_map)) [
    | inl n ↦ rw n (ground (arith, h))
    | inr (entry, f) ↦ rw f (
        readdir_entry-Settled _ dirp entry (record s { locks = s.locks + 1 })
          (record { ledger = ground (arith, h); mapped = f }))
  ]

  closedir_entry-Settled :
      (folder : ℕ) (entry : DirEntry e.Reader) (s : State e)
      → Found folder entry s
      → Settled (closedir_entry e folder (some entry) s)
  closedir_entry-Settled folder entry s h =
      let nodes = entry.dir_entry_list in
      let gone : State e = record s {
        dir_map = e.dirs.del folder s.dir_map;
        readers = s.readers - 1;
      } in
      let less : State e = record gone { dir_map_entries = s.dir_map_entries - 1 } in
      let start : Ledger e others spare (length nodes + 0) 0 (d + 1) less = ground (
        arith,
        h.ledger,
        e.dirs.count-del folder entry s.dir_map h.mapped,
        e.dirs.total-del (listed e) folder entry s.dir_map h.mapped,
      ) in
      let freed = (free_list-Ledger e others spare nodes 0 0 (d + 1) less start).1 in
      let framed =
        subst (λ u. Ledger e others spare 0 0 (d + 1) u)
          (free_list_frame e nodes (s.dir_map_entries - 1) gone) freed in
      let same =
        ap (λ (u : State e). u.dir_map_entries) (free_list_frame e nodes s.dir_map_entries gone) in
      ground (arith, framed, same)

  pub sqfs_closedir-Ledger :
      (folder : ℕ) (s : State e)
      → Ledger e others spare 0 0 d s
      → Ledger e others spare 0 0 d (sqfs_closedir e folder s).1
  unfolding sqfs_closedir
  sqfs_closedir-Ledger folder s h = elim (Option-cases (e.dirs.find folder s.dir_map)) [
    | inl n ↦ rw n (ground (arith, h))
    | inr (entry, f) ↦ rw f (
        closedir_entry-Settled folder entry (record s { locks = s.locks + 1 })
          (record { ledger = ground (arith, h); mapped = f }))
  ]
