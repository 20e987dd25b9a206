-- ===== src/Manager/Image/Loading.antt =====
-- sqfs_mgr.c, loading and unloading the image: what is there before and after.
use Prim.Native.Nat.{bit_and}
use hooksqfs.Base.{
  ℕ, ◌+◌, ◌≡◌, refl, Bool, true, false, not, Option, none, some, arith, ◌==◌, if◌then◌else◌, inl,
  inr, ◌⊎◌, Bool-cases, Str,
}
use hooksqfs.Errno.{SqfsError}
use hooksqfs.Env.{Env, Super}
use hooksqfs.Manager.{State, call, sqfs_lock, sqfs_mgr_loaded_locked}
use hooksqfs.Manager.Image.{
  compressor_options, failed, set_compressor, set_data_reader, set_file, set_super,
  sqfs_util_super_info, sqfs_mgr_unload_image, with_table, with_data_reader, with_options,
  options_if, with_compressor, with_config, with_super, with_file, load_from, sqfs_mgr_load_image,
}

module _ (e : Env) where
  -- The image is there as a whole, or not at all; `others` objects of libsquashfs belong elsewhere.
  pub record Loaded (b : Bool) (others : ℕ) (s : State e) : Type 0 where
    pub file : s.file ≡ b
    pub compressor : s.compressor ≡ b
    pub data_reader : s.data_reader ≡ b
    pub objects : s.objects ≡ others + (if b then 3 else 0)

  -- The mutex and the two tables are as in `s`.
  pub record Apart (s t : State e) : Type 0 where
    pub locks : t.locks ≡ s.locks
    pub fd_map : t.fd_map ≡ s.fd_map
    pub dir_map : t.dir_map ≡ s.dir_map
    pub inodes : t.inodes ≡ s.inodes
    pub readers : t.readers ≡ s.readers

  abbrev Loads : ℕ → State e → Bool × State e → Type 0
  Loads others s (ok, t) = Loaded ok others t × Apart s t

  -- In the middle of a load: these of the three objects are there.
  record Partly (file compressor data_reader : Bool) (others : ℕ) (s t : State e) : Type 0 where
    has_file : t.file ≡ file
    has_compressor : t.compressor ≡ compressor
    has_data_reader : t.data_reader ≡ data_reader
    objects :
        t.objects
        ≡ others
          + (if file then 1 else 0)
          + (if compressor then 1 else 0)
          + (if data_reader then 1 else 0)
    apart : Apart (record s { locks = s.locks + 1 }) t

  module _ (others : ℕ) (s : State e) where
    -- A label that fails unloads whatever is there.
    failed-Loads :
        (f c d : Bool) (t : State e) → Partly f c d others s t → Loads others s (failed e t)
    unfolding sqfs_mgr_unload_image
    failed-Loads false false false t p = ground arith
    failed-Loads false false true t p = ground arith
    failed-Loads false true false t p = ground arith
    failed-Loads false true true t p = ground arith
    failed-Loads true false false t p = ground arith
    failed-Loads true false true t p = ground arith
    failed-Loads true true false t p = ground arith
    failed-Loads true true true t p = ground arith

    with_table-Loads :
        (ret : Option SqfsError) (t : State e)
        → Partly true true true others s t
        → Loads others s (with_table e ret t)
    with_table-Loads none t p = ground arith
    with_table-Loads (some ret) t p = failed-Loads true true true t p

    with_data_reader-Loads :
        (made : Bool) (t : State e)
        → Partly true true false others s t
        → Loads others s (with_data_reader e made t)
    with_data_reader-Loads false t p = failed-Loads true true false _ (ground arith)
    with_data_reader-Loads true t p =
        let u = set_data_reader e true t in
        let v = call (e.load_fragment_table) u.1 in with_table-Loads v.0 v.1 (ground arith)

    with_options-Loads :
        (super : Super) (ret : Option SqfsError) (t : State e)
        → Partly true true false others s t
        → Loads others s (with_options e super ret t)
    with_options-Loads super (some ret) t p = failed-Loads true true false t p
    with_options-Loads super none t p =
        let u = call (e.data_reader_create super.block_size) t in
        with_data_reader-Loads u.0 u.1 (ground arith)

    options_if-Partly :
        (super : Super) (t : State e)
        → Partly true true false others s t
        → Partly true true false others s (options_if e super t).1
    options_if-Partly super t p =
        elim (Bool-cases (not (bit_and super.flags compressor_options == 0))) [
          | inl b ↦ rw b (ground arith)
          | inr b ↦ rw b p
        ]

    with_compressor-Loads :
        (super : Super) (ret : Option SqfsError) (t : State e)
        → Partly true false false others s t
        → Loads others s (with_compressor e super ret t)
    with_compressor-Loads super (some ret) t p = failed-Loads true false false t p
    with_compressor-Loads super none t p =
        let u = set_compressor e t in
        let v = options_if e super u.1 in
        with_options-Loads super v.0 v.1 (options_if-Partly super u.1 (ground arith))

    with_config-Loads :
        (super : Super) (ret : Option SqfsError) (t : State e)
        → Partly true false false others s t
        → Loads others s (with_config e super ret t)
    with_config-Loads super (some ret) t p = failed-Loads true false false t p
    with_config-Loads super none t p =
        let u = call e.compressor_create t in with_compressor-Loads super u.0 u.1 (ground arith)

    with_super-Loads :
        (ret : SqfsError ⊎ Super) (t : State e)
        → Partly true false false others s t
        → Loads others s (with_super e ret t)
    with_super-Loads (inl ret) t p = failed-Loads true false false t p
    with_super-Loads (inr super) t p =
        let u = set_super e super t in
        let v = call {e = e} e.log_msg u.1 in
        let w = sqfs_util_super_info e v.1 in
        let x = call (e.compressor_config_init super) w.1 in
        with_config-Loads super x.0 x.1 (ground arith)

    with_file-Loads :
        (opened : Bool) (t : State e)
        → Partly false false false others s t
        → Loads others s (with_file e opened t)
    with_file-Loads false t p = ground arith
    with_file-Loads true t p =
        let u = set_file e true t in
        let v = call e.super_read u.1 in with_super-Loads v.0 v.1 (ground arith)

    load_from-Loads :
        (path : Option Str) (t : State e)
        → Partly false false false others s t
        → Loads others s (load_from e path t)
    load_from-Loads none t p = ground arith
    load_from-Loads (some path) t p =
        let u = call (e.open_file path) t in with_file-Loads u.0 u.1 (ground arith)

  pub unloaded :
      (others : ℕ) (s : State e) → Loaded false others s → sqfs_mgr_loaded_locked s ≡ false
  unloaded others s h = simp (h.file, h.compressor, h.data_reader) refl

  -- Where the image is there as a whole or not at all, it is there after sqfs_mgr_load_image exactly if
  -- that returns true: a load that fails at any point leaves no object of it, one that succeeds leaves
  -- three, and an image that was there stays. The mutex and the two tables are as before.
  pub sqfs_mgr_load_image-Loaded :
      (others : ℕ) (b : Bool) (s : State e)
      → Loaded b others s
      → let (ok, t) = sqfs_mgr_load_image e s in
        Loaded ok others t × Apart s t × (b ≡ true → ok ≡ true)
  unfolding sqfs_mgr_load_image
  sqfs_mgr_load_image-Loaded others true s h = ground arith
  sqfs_mgr_load_image-Loaded others false s h =
      let u = sqfs_lock s in
      let (l, a) = load_from-Loads others s (e.file_variable s.world) u.1 (ground arith) in
      rw (unloaded others s h) (l, a, λ q. ground arith)
