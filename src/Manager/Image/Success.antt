-- ===== src/Manager/Image/Success.antt =====
-- sqfs_mgr.c, a load of the image that succeeds, and an unload after it.
use Prim.Native.Nat.{bit_and}
use hooksqfs.Base.{
  ℕ, ◌≡◌, refl, Bool, true, false, not, none, some, arith, ◌==◌, inl, inr, Bool-cases, Str,
}
use hooksqfs.Env.{Env, Super}
use hooksqfs.Manager.{State, call, sqfs_lock}
use hooksqfs.Manager.Image.{
  compressor_options, set_compressor, set_file, set_super, sqfs_util_super_info,
  sqfs_mgr_unload_image, with_data_reader, with_options, with_compressor, with_config, with_super,
  load_from, sqfs_mgr_load_image,
}
use hooksqfs.Manager.Image.Loading.{Loaded, unloaded, sqfs_mgr_load_image-Loaded}

module _ (e : Env) where
  -- Every call that a load makes succeeds.
  pub record Willing (path : Str) (super : Super) : Type 0 where
    pub opens : (w : e.World) → (e.open_file path w).value ≡ true
    pub reads : (w : e.World) → (e.super_read w).value ≡ inr super
    pub configures : (w : e.World) → (e.compressor_config_init super w).value ≡ none
    pub compresses : (w : e.World) → (e.compressor_create w).value ≡ none
    pub options : (w : e.World) → (e.read_options w).value ≡ none
    pub creates : (w : e.World) → (e.data_reader_create super.block_size w).value ≡ true
    pub loads : (w : e.World) → (e.load_fragment_table w).value ≡ none

  module _ (path : Str) (super : Super) (w : Willing path super) where
    abbrev Succeeds : Bool × State e → Type 0
    Succeeds (ok, t) = (ok ≡ true) × (t.block_size ≡ super.block_size)

    with_data_reader-Succeeds :
        (t : State e) → t.block_size ≡ super.block_size → Succeeds (with_data_reader e true t)
    with_data_reader-Succeeds t h = rw (w.loads t.world) (refl, h)

    with_options-Succeeds :
        (t : State e) → t.block_size ≡ super.block_size → Succeeds (with_options e super none t)
    with_options-Succeeds t h =
        let u = call (e.data_reader_create super.block_size) t in
        rw (w.creates t.world) (with_data_reader-Succeeds u.1 h)

    with_compressor-Succeeds :
        (t : State e) → t.block_size ≡ super.block_size → Succeeds (with_compressor e super none t)
    with_compressor-Succeeds t h =
        elim (Bool-cases (not (bit_and super.flags compressor_options == 0))) [
          | inl b ↦
              let u = call e.read_options (set_compressor e t).1 in
              rw b (rw (w.options t.world) (with_options-Succeeds u.1 h))
          | inr b ↦ rw b (with_options-Succeeds (set_compressor e t).1 h)
        ]

    with_config-Succeeds :
        (t : State e) → t.block_size ≡ super.block_size → Succeeds (with_config e super none t)
    with_config-Succeeds t h =
        let u = call e.compressor_create t in
        rw (w.compresses t.world) (with_compressor-Succeeds u.1 h)

    with_super-Succeeds : (t : State e) → Succeeds (with_super e (inr super) t)
    with_super-Succeeds t =
        let u = sqfs_util_super_info e (call {e = e} e.log_msg (set_super e super t).1).1 in
        let v = call (e.compressor_config_init super) u.1 in
        rw (w.configures u.1.world) (with_config-Succeeds v.1 refl)

    load_from-Succeeds : (t : State e) → Succeeds (load_from e (some path) t)
    load_from-Succeeds t =
        let u = set_file e true (call (e.open_file path) t).1 in
        rw (w.opens t.world)
          (rw (w.reads u.1.world) (with_super-Succeeds (call e.super_read u.1).1))

  unload-Loaded :
      (others : ℕ) (b : Bool) (t : State e)
      → b ≡ true
      → Loaded e b others t
      → Loaded e false others (sqfs_mgr_unload_image e t).1
  unfolding sqfs_mgr_unload_image
  unload-Loaded others true t q l = ground arith
  unload-Loaded others false t q l = ground arith

  -- Where HOOKSQFS_FILE names an image and each call of libsquashfs succeeds, a load returns true, the
  -- block size is that of the superblock, and an unload then leaves no image and the objects there were.
  pub sqfs_mgr_load_image-unload :
      (others : ℕ) (path : Str) (super : Super) (s : State e)
      → Loaded e false others s
      → Willing path super
      → e.file_variable s.world ≡ some path
      → let (ok, t) = sqfs_mgr_load_image e s in
        (ok ≡ true)
        × (t.block_size ≡ super.block_size)
        × Loaded e false others (sqfs_mgr_unload_image e t).1
  unfolding sqfs_mgr_load_image sqfs_mgr_unload_image
  sqfs_mgr_load_image-unload others path super s h w f =
      let r = sqfs_mgr_load_image e s in
      let l = (sqfs_mgr_load_image-Loaded e others false s h).0 in
      let (ok, size) : Succeeds path super w r =
        rw (unloaded e others s h) (rw f (load_from-Succeeds path super w (sqfs_lock s).1)) in
      (ok, size, unload-Loaded others _ r.1 ok l)
