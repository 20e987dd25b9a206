-- ===== src/Manager/Folders/Cursor.antt =====
-- sqfs_mgr.c, sqfs_readdir, against a stream of names.
use mathlib.Core.Path.{subst, ap₂}
use hooksqfs.Base.{
  ℕ, zero, suc, ◌+◌, ◌-◌, ◌≡◌, refl, sym, ap, ◌∙◌, inl, inr, Bool, true, false, Option, none, some,
  List, [], ◌∷◌, ◌++◌, if◌then◌else◌, Bool-cases,
}
use hooksqfs.Env.{Env, Node, Dirent, DirEntry}
use hooksqfs.Manager.{State, call}
use hooksqfs.Manager.Folders.Reading.{
  list_if_null, dump_dirent, give_node, next_node, real_entry, readdir_entry, sqfs_readdir,
}

abbrev pub first : List Dirent → Option Dirent
first [] = none
first (x ∷ xs) = some x

abbrev pub rest : List Dirent → List Dirent
rest [] = []
rest (x ∷ xs) = xs

abbrev pub dirents : List Node → List Dirent
dirents [] = []
dirents (node ∷ nodes) = node.dirent ∷ dirents nodes

-- What `n` reads of a stream of names give: the names in order, and then NULL.
pub stream : ℕ → List Dirent → List (Option Dirent)
stream zero xs = []
stream (suc n) xs = first xs ∷ stream n (rest xs)

module _ (e : Env) where
  -- What an entry of the table has still to give of the image.
  abbrev pub remaining : DirEntry e.Reader → List Dirent
  remaining entry =
      if entry.dir_entry_list_reached_end
      then []
      else dirents (list_if_null e entry.dir_entry_current entry.dir_entry_list)

  -- The readdir of the C library on a directory: it has these entries left, and gives them in order;
  -- logging does not read it.
  pub record RealDir (dirp : ℕ) : Type 0 where
    pub left : e.World → List Dirent
    pub gives : (w : e.World) → (e.libc_readdir dirp w).value ≡ first (left w)
    pub moves : (w : e.World) → left (e.libc_readdir dirp w).world ≡ rest (left w)
    pub unlogged : (w : e.World) → left (e.log_msg w).world ≡ left w

  -- `n` reads of a directory, one after the other.
  pub read_folder : ℕ → ℕ → State e → List (Option Dirent) × State e
  read_folder zero dirp s = ([], s)
  read_folder (suc n) dirp s =
      let (r, t) = sqfs_readdir e dirp s in let (rs, u) = read_folder n dirp t in (r ∷ rs, u)

  abbrev real_left : {dirp : ℕ} → RealDir dirp → DirEntry e.Reader → e.World → List Dirent
  real_left real entry w = if entry.is_real_dir then real.left w else []

  -- The directory has these names to give: first those of the C library's directory, if there is one,
  -- then those of the image.
  pub record Has (dirp : ℕ) (real : RealDir dirp) (names : List Dirent) (s : State e) : Type 0 where
    pub entry : DirEntry e.Reader
    pub mapped : e.dirs.find dirp s.dir_map ≡ some entry
    pub names_left : names ≡ real_left real entry s.world ++ remaining entry

  module _ (dirp : ℕ) (real : RealDir dirp) where
    -- A result and the state with it: the first name, and the others left.
    abbrev Reads : List Dirent → Option Dirent × State e → Type 0
    Reads names (r, t) = (r ≡ first names) × Has dirp real (rest names) t

    dump_left : (b : Bool) (s : State e) → real.left (dump_dirent e b s).1.world ≡ real.left s.world
    dump_left true s = real.unlogged s.world
    dump_left false s = refl

    dump_real_left :
        (b : Bool) (entry : DirEntry e.Reader) (s : State e)
        → real_left real entry (dump_dirent e b s).1.world ≡ real_left real entry s.world
    dump_real_left b entry s =
        ap (λ (xs : List Dirent). if entry.is_real_dir then xs else []) (dump_left b s)

    dump_map : (b : Bool) (s : State e) → (dump_dirent e b s).1.dir_map ≡ s.dir_map
    dump_map true s = refl
    dump_map false s = refl

    -- An entry that is written to the table and then read from it.
    written :
        (b : Bool) (entry moved : DirEntry e.Reader) (s : State e)
        → e.dirs.find dirp s.dir_map ≡ some entry
        → e.dirs.find dirp
            (dump_dirent e b (record s { dir_map = e.dirs.update dirp moved s.dir_map })).1.dir_map
          ≡ some moved
    written b entry moved s m =
        ap (λ t. e.dirs.find dirp t)
          (dump_map b (record s { dir_map = e.dirs.update dirp moved s.dir_map }))
        ∙ e.dirs.find-update dirp moved entry s.dir_map m

    give_node-Reads :
        (b : Bool) (entry : DirEntry e.Reader) (s : State e) (nodes : List Node)
        → e.dirs.find dirp s.dir_map ≡ some entry
        → entry.dir_entry_list_reached_end ≡ false
        → real_left real entry s.world ≡ []
        → list_if_null e entry.dir_entry_current entry.dir_entry_list ≡ nodes
        → Reads (dirents nodes) (give_node e b dirp entry nodes s)
    give_node-Reads b entry s [] m r z h =
        (refl, record { entry = entry; mapped = m; names_left = simp (z, r, h) refl })
    give_node-Reads b entry s (node ∷ []) m r z h =
        let moved : DirEntry e.Reader = record entry {
          dir_entry_current = [];
          dir_entry_list_reached_end = true;
        } in
        let t : State e = record s { dir_map = e.dirs.update dirp moved s.dir_map } in
        let none_left = dump_real_left b moved t ∙ z in
        (
          refl,
          record {
            entry = moved;
            mapped = written b entry moved s m;
            names_left = simp none_left refl;
          },
        )
    give_node-Reads b entry s (node ∷ next ∷ nodes) m r z h =
        let moved : DirEntry e.Reader = record entry {
          dir_entry_current = next ∷ nodes;
          dir_entry_list_reached_end = entry.dir_entry_list_reached_end;
        } in
        let t : State e = record s { dir_map = e.dirs.update dirp moved s.dir_map } in
        let none_left = dump_real_left b moved t ∙ z in
        (
          refl,
          record {
            entry = moved;
            mapped = written b entry moved s m;
            names_left = simp none_left (simp r refl);
          },
        )

    at_end-Reads :
        (b : Bool) (entry : DirEntry e.Reader) (s : State e)
        → e.dirs.find dirp s.dir_map ≡ some entry
        → entry.dir_entry_list_reached_end ≡ true
        → real_left real entry s.world ≡ []
        → Reads [] (none, record (dump_dirent e b s).1 { locks = (dump_dirent e b s).1.locks - 1 })
    at_end-Reads b entry s m r z = (
      refl,
      record {
        entry = entry;
        mapped = ap (λ t. e.dirs.find dirp t) (dump_map b s) ∙ m;
        names_left = let none_left = dump_real_left b entry s ∙ z in simp (none_left, r) refl;
      },
    )

    next_node-Reads :
        (b : Bool) (entry : DirEntry e.Reader) (s : State e)
        → e.dirs.find dirp s.dir_map ≡ some entry
        → real_left real entry s.world ≡ []
        → Reads (remaining entry) (next_node e b dirp entry s)
    next_node-Reads b entry s m z = elim (Bool-cases entry.dir_entry_list_reached_end) [
      | inl r ↦ simp r (at_end-Reads b entry s m r z)
      | inr r ↦ simp r (give_node-Reads b entry s _ m r z refl)
    ]

    real_entry-Reads :
        (b : Bool) (entry : DirEntry e.Reader) (s : State e) (left : List Dirent)
        → e.dirs.find dirp s.dir_map ≡ some entry
        → entry.is_real_dir ≡ true
        → real.left s.world ≡ rest left
        → Reads (left ++ remaining entry) (real_entry e b dirp entry (first left) s)
    real_entry-Reads b entry s [] m r z = next_node-Reads b entry s m (simp (r, z) refl)
    real_entry-Reads b entry s (x ∷ xs) m r z = (
      refl,
      record {
        entry = entry;
        mapped = ap (λ t. e.dirs.find dirp t) (dump_map b s) ∙ m;
        names_left = let same = dump_left b s ∙ z in simp (r, same) refl;
      },
    )

    readdir_entry-Reads :
        (b : Bool) (entry : DirEntry e.Reader) (s : State e)
        → e.dirs.find dirp s.dir_map ≡ some entry
        → Reads
            (real_left real entry s.world ++ remaining entry)
            (readdir_entry e b dirp (some entry) s)
    readdir_entry-Reads b entry s m = elim (Bool-cases entry.is_real_dir) [
      | inl r ↦
          let left = real.left s.world in
          let u = call {e = e} (e.libc_readdir dirp) s in
          simp r (
            subst (λ v. Reads (left ++ remaining entry) (real_entry e b dirp entry v u.1))
              (sym (real.gives s.world))
              (real_entry-Reads b entry u.1 left m r (real.moves s.world)))
      | inr r ↦ simp r (next_node-Reads b entry s m (simp r refl))
    ]

    -- A call of readdir gives the first name that is left, and leaves the others.
    sqfs_readdir-Reads :
        (names : List Dirent) (s : State e)
        → Has dirp real names s
        → Reads names (sqfs_readdir e dirp s)
    unfolding sqfs_readdir
    sqfs_readdir-Reads names s h =
        let read = readdir_entry-Reads _ h.entry (record s { locks = s.locks + 1 }) h.mapped in
        rw h.mapped (rw h.names_left read)

    -- Reads of a directory in the table give the names of the C library's directory, if it is one too,
    -- in order, then those of the image that are left, in order, and NULL from then on. A name that both
    -- have is given twice. The C library's readdir gives its entries in order, and logging does not read
    -- it.
    pub read_folder-stream :
        (n : ℕ) (names : List Dirent) (s : State e)
        → Has dirp real names s
        → (read_folder n dirp s).0 ≡ stream n names
    unfolding read_folder stream
    read_folder-stream zero names s h = refl
    read_folder-stream (suc n) names s h =
        let (r, next) = sqfs_readdir-Reads names s h in
        ap₂ (λ (x : Option Dirent) (xs : List (Option Dirent)). x ∷ xs) r
          (read_folder-stream n (rest names) (sqfs_readdir e dirp s).1 next)
