-- ===== src/Manager/Folders/Ledger.antt =====
-- sqfs_mgr.c, the entry points on directories: the mutex and the memory that they manage.
use hooksqfs.Base.{
  ℕ, zero, suc, ◌+◌, ◌-◌, ◌≡◌, refl, ◌∙◌, ◌⊎◌, inl, inr, Bool, true, false, List, [], ◌∷◌, ◌++◌,
  arith, length, length-append, Str,
}
use hooksqfs.Errno.{SqfsError}
use hooksqfs.Inode.{Inode}
use hooksqfs.Env.{Env, Node, DirEntry, DirRead, no_more, dir_error, dir_name}
use hooksqfs.Manager.{State, M, call}
use hooksqfs.Manager.Folders.Enumerate.{
  make_node, free_sqfs_dir_entry_list, with_inode, with_node, with_read, enumerate_dir,
}

module _ (e : Env) where
  -- The number of names that a directory lists.
  abbrev pub listed : DirEntry e.Reader → ℕ
  listed entry = length entry.dir_entry_list

  -- To free a list neither reads nor writes the count of the DirMapEntry objects.
  pub free_list_frame :
      (nodes : List Node) (k : ℕ) (s : State e)
      → (free_sqfs_dir_entry_list e nodes (record s { dir_map_entries = k })).1
        ≡ record (free_sqfs_dir_entry_list e nodes s).1 { dir_map_entries = k }
  unfolding free_sqfs_dir_entry_list
  free_list_frame [] k s = refl
  free_list_frame (node ∷ nodes) k s =
      free_list_frame nodes k (record s { inodes = s.inodes - 1; nodes = s.nodes - 1 })

module _ (e : Env) (others spare : ℕ) where
  -- Every entry of the two tables owns its memory, one inode for each file and each listed name, and one
  -- reader for each directory; `others` inodes and `spare` readers belong elsewhere, and a call in
  -- progress holds some more. The mutex is `depth` deep.
  pub record Ledger (inodes_held readers_held depth : ℕ) (s : State e) : Type 0 where
    pub inodes :
        s.inodes ≡ e.fds.count s.fd_map + (e.dirs.total (listed e) s.dir_map + others) + inodes_held
    pub fd_entries : s.fd_entries ≡ e.fds.count s.fd_map
    pub dir_map_entries : s.dir_map_entries ≡ e.dirs.count s.dir_map
    pub readers : s.readers ≡ e.dirs.count s.dir_map + spare + readers_held
    pub locks : s.locks ≡ depth

  -- The list is NULL, what it held is given back, and the table is the one before.
  pub free_list-Ledger :
      (nodes : List Node) (k r d : ℕ) (s : State e)
      → Ledger (length nodes + k) r d s
      → let (ns, t) = free_sqfs_dir_entry_list e nodes s in
        (ns ≡ []) × Ledger k r d t × (t.dir_map ≡ s.dir_map)
  unfolding free_sqfs_dir_entry_list
  free_list-Ledger [] k r d s h = ground arith
  free_list-Ledger (node ∷ nodes) k r d s h =
      free_list-Ledger nodes k r d (record s { inodes = s.inodes - 1; nodes = s.nodes - 1 })
        (ground arith)

  -- A list and the state with it, while the table is `m`.
  abbrev pub Lists : e.dirs.Map → ℕ → ℕ → ℕ → List Node × State e → Type 0
  Lists m k r d (nodes, s) = Ledger (length nodes + k) r d s × (s.dir_map ≡ m)

  module _ (m : e.dirs.Map) (k r d : ℕ) where
    freed-Lists :
        (nodes : List Node) (s : State e)
        → Lists m k r d (nodes, s)
        → Lists m k r d (free_sqfs_dir_entry_list e nodes s)
    freed-Lists nodes s h =
        let (empty, given, same) = free_list-Ledger nodes k r d s h.0 in
        (rw empty (ground (arith, given)), same ∙ h.1)

    abbrev Continues : (List Node → M e (List Node)) → Type 0
    Continues next =
        (nodes : List Node) (s : State e) → Lists m k r d (nodes, s) → Lists m k r d (next nodes s)

    with_inode-Lists :
        (next : List Node → M e (List Node)) (nodes : List Node) (name : Str)
        (found : SqfsError ⊎ Inode) (s : State e)
        → Continues next
        → Lists m k r d (nodes, s)
        → Lists m k r d (with_inode e next nodes name found s)
    with_inode-Lists next nodes name (inl ret) s ih h = freed-Lists nodes _ (ground arith)
    with_inode-Lists next nodes name (inr inode) s ih h =
        ih (nodes ++ make_node e name inode ∷ []) (record s { inodes = s.inodes + 1 })
          (ground (arith, length-append nodes (make_node e name inode ∷ [])))

    with_node-Lists :
        (next : List Node → M e (List Node)) (reader : e.Reader) (nodes : List Node) (name : Str)
        (b : Bool) (s : State e)
        → Continues next
        → Lists m k r d (nodes, s)
        → Lists m k r d (with_node e next reader nodes name b s)
    with_node-Lists next reader nodes name false s ih h = freed-Lists nodes _ (ground arith)
    with_node-Lists next reader nodes name true s ih h =
        let u = call (e.dir_reader_get_inode reader) (record s { nodes = s.nodes + 1 }) in
        with_inode-Lists next nodes name u.0 u.1 ih (ground arith)

    with_read-Lists :
        (next : List Node → M e (List Node)) (reader : e.Reader) (nodes : List Node)
        (given : DirRead) (s : State e)
        → Continues next
        → Lists m k r d (nodes, s)
        → Lists m k r d (with_read e next reader nodes given s)
    with_read-Lists next reader nodes no_more s ih h = h
    with_read-Lists next reader nodes (dir_error ret) s ih h = freed-Lists nodes _ (ground arith)
    with_read-Lists next reader nodes (dir_name name) s ih h =
        let u = call {e = e} e.malloc (record s { dir_entries = s.dir_entries + 1 }) in
        with_node-Lists next reader nodes name u.0 u.1 ih (ground arith)

    pub enumerate_dir-Lists :
        (fuel : ℕ) (reader : e.Reader) (nodes : List Node) (s : State e)
        → Lists m k r d (nodes, s)
        → Lists m k r d (enumerate_dir e fuel reader nodes s)
    unfolding enumerate_dir
    enumerate_dir-Lists zero reader nodes s h = h
    enumerate_dir-Lists (suc fuel) reader nodes s h =
        let u = call (e.dir_reader_read reader) s in
        with_read-Lists (enumerate_dir e fuel reader) reader nodes u.0 u.1
          (enumerate_dir-Lists fuel reader) (ground arith)
