-- ===== src/Manager/Folders/Listing.antt =====
-- sqfs_mgr.c, enumerate_dir and readdir: the names that a directory gives.
use hooksqfs.Base.{
  ℕ, zero, suc, ◌+◌, ◌<◌, ◌≡◌, refl, ap, ◌∙◌, inr, true, Option, some, List, [], ◌∷◌, ◌++◌,
  append-nil, append_assoc, arith, length, Str,
}
use hooksqfs.Inode.{Inode, InodeType, dir, ext_dir}
use hooksqfs.Env.{Dirent, Env, Node, no_more, dir_name}
use hooksqfs.Manager.{State, call}
use hooksqfs.Manager.Folders.Enumerate.{make_node, d_type_of, enumerate_dir}

-- DT_DIR of dirent.h for a directory, and DT_REG for all else.
abbrev pub entry_type : InodeType → ℕ
entry_type dir = 4
entry_type ext_dir = 4
entry_type _ = 8

entry_type-d_type_of : (kind : InodeType) → d_type_of kind ≡ entry_type kind
entry_type-d_type_of dir = refl
entry_type-d_type_of _ = refl

module _ (e : Env) where
  -- The entry that a directory shows for a name and its inode.
  abbrev pub entry_of : Str → Inode → Dirent
  entry_of name inode = record {
    d_ino = inode.inode_number;
    d_off = 114514;
    d_reclen = e.sizeof_dirent;
    d_type = entry_type inode.kind;
    d_name = name;
  }

  abbrev pub nodes_of : List (Str × Inode) → List Node
  nodes_of [] = []
  nodes_of (x ∷ xs) = record { inode = x.1; dirent = entry_of x.0 x.1 } ∷ nodes_of xs

  make_node-entry :
      (name : Str) (inode : Inode)
      → make_node e name inode ≡ record { inode = inode; dirent = entry_of name inode }
  make_node-entry name inode = simp (entry_type-d_type_of inode.kind) refl

  -- What the documentation of libsquashfs says of a reader on a directory, where memory is there: a read
  -- gives the next name and moves on, and get_inode its inode.
  pub record Gives (reader : e.Reader) : Type 0 where
    pub left : e.World → List (Str × Inode)
    pub last : e.World → Option Inode
    pub read_end : (w : e.World) → left w ≡ [] → (e.dir_reader_read reader w).value ≡ no_more
    pub read_name :
        (w : e.World) (x : Str × Inode) (xs : List (Str × Inode))
        → left w ≡ x ∷ xs
        → let r = e.dir_reader_read reader w in
          (r.value ≡ dir_name x.0) × (left r.world ≡ xs) × (last r.world ≡ some x.1)
    pub memory :
        (w : e.World)
        → ((e.malloc w).value ≡ true)
          × (left (e.malloc w).world ≡ left w)
          × (last (e.malloc w).world ≡ last w)
    pub inode_of :
        (w : e.World) (inode : Inode)
        → last w ≡ some inode
        → ((e.dir_reader_get_inode reader w).value ≡ inr inode)
          × (left (e.dir_reader_get_inode reader w).world ≡ left w)

  -- The list, and what was allocated for its `n` names: a node and an inode for each, and the entry that
  -- the read allocated, which is still there.
  abbrev pub Listed : List Node → ℕ → State e → List Node × State e → Type 0
  Listed nodes n s (result, t) =
      (result ≡ nodes)
      × (t.inodes ≡ s.inodes + n)
      × (t.nodes ≡ s.nodes + n)
      × (t.dir_entries ≡ s.dir_entries + n)
      × (t.dir_map ≡ s.dir_map)

  -- One round at a name: what follows is the next round, on the list with the new node.
  round_name :
      (reader : e.Reader) (g : Gives reader) (fuel : ℕ) (nodes : List Node) (x : Str × Inode)
      (xs : List (Str × Inode)) (s : State e)
      → g.left s.world ≡ x ∷ xs
      → (t : State e) × (enumerate_dir e (suc fuel) reader nodes s
          ≡ enumerate_dir e fuel reader (nodes ++ make_node e x.0 x.1 ∷ []) t)
        × (g.left t.world ≡ xs)
        × (t.inodes ≡ s.inodes + 1)
        × (t.nodes ≡ s.nodes + 1)
        × (t.dir_entries ≡ s.dir_entries + 1)
        × (t.dir_map ≡ s.dir_map)
  unfolding enumerate_dir
  round_name reader g fuel nodes x xs s h =
      let (is_name, rest, last) = g.read_name s.world x xs h in
      let w = (e.dir_reader_read reader s.world).world in
      let (has, kept, same) = g.memory w in
      let (given, kept') = g.inode_of (e.malloc w).world x.1 (same ∙ last) in
      let r = call {e = e} (e.dir_reader_read reader) s in
      let m = call {e = e} e.malloc (record r.1 { dir_entries = s.dir_entries + 1 }) in
      let i = call {e = e} (e.dir_reader_get_inode reader) (record m.1 { nodes = s.nodes + 1 }) in
      (
        record i.1 { inodes = s.inodes + 1 },
        rw is_name (rw has (rw given refl)),
        kept' ∙ kept ∙ rest,
        refl,
        refl,
        refl,
        refl,
      )

  enumerate_end :
      (reader : e.Reader) (g : Gives reader) (fuel : ℕ) (nodes : List Node) (s : State e)
      → g.left s.world ≡ []
      → Listed nodes 0 s (enumerate_dir e (suc fuel) reader nodes s)
  unfolding enumerate_dir
  enumerate_end reader g fuel nodes s h =
      rw (g.read_end s.world h) (refl, omega arith, omega arith, omega arith, refl)

  -- enumerate_dir of a reader that gives these names, with more rounds than names: the list is extended
  -- by a node for each name, in order, with its inode and an entry of its name, its inode number and
  -- DT_DIR for a directory and DT_REG for all else; and of each name the entry that
  -- sqfs_dir_reader_read allocated is never freed. The table is as before.
  pub enumerate_dir-Listed :
      (reader : e.Reader) (g : Gives reader) (fuel : ℕ) (nodes : List Node)
      (xs : List (Str × Inode)) (s : State e)
      → g.left s.world ≡ xs
      → length xs < fuel
      → Listed (nodes ++ nodes_of xs) (length xs) s (enumerate_dir e fuel reader nodes s)
  enumerate_dir-Listed reader g zero nodes xs s h f = absurd (omega arith)
  enumerate_dir-Listed reader g (suc fuel) nodes [] s h f =
      rw append-nil (enumerate_end reader g fuel nodes s h)
  enumerate_dir-Listed reader g (suc fuel) nodes (x ∷ xs) s h f =
      let (t, step, rest, inodes, ns, entries, same) = round_name reader g fuel nodes x xs s h in
      let (list, i, n, d, kept) =
        enumerate_dir-Listed reader g fuel (nodes ++ make_node e x.0 x.1 ∷ []) xs t rest
          (omega arith) in
      rw step (
        list
            ∙ append_assoc nodes (make_node e x.0 x.1 ∷ []) (nodes_of xs)
            ∙ ap (λ node. nodes ++ node ∷ nodes_of xs) (make_node-entry x.0 x.1),
        omega (arith, i, inodes),
        omega (arith, n, ns),
        omega (arith, d, entries),
        kept ∙ same,
      )
