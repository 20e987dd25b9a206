-- ===== src/Manager/Image.antt =====
-- sqfs_mgr.c, sqfs_mgr_load_image and sqfs_mgr_unload_image. Of the superblock the state keeps the block
-- size.
pub mod Loading
pub mod Success
mod Tests
use Prim.Native.Nat.{bit_and}
use hooksqfs.Base.{
  ℕ, ◌+◌, ◌-◌, Bool, true, false, not, Option, none, some, ◌==◌, if◌then◌else◌, Str, ◌⊎◌, inl, inr,
}
use hooksqfs.Errno.{SqfsError}
use hooksqfs.Env.{Env, Reply, Super}
use hooksqfs.Manager.{
  State, M, ◌>>=◌, ◌>>◌, pure, call, sqfs_lock, sqfs_unlock, sqfs_mgr_loaded_locked,
}

-- SQFS_FLAG_COMPRESSOR_OPTIONS of the superblock's flags.
abbrev pub compressor_options : ℕ
compressor_options = 0x0400

abbrev pub one_if : Bool → ℕ
one_if false = 0
one_if true = 1

module _ (e : Env) where
  open e use {
    log_msg, file_variable, open_file, super_read, compressor_config_init, compressor_create,
    read_options, data_reader_create, load_fragment_table,
  }

  abbrev destroy_data_reader : M e (Unit {0})
  destroy_data_reader s =
      (tt, record s { objects = s.objects - one_if s.data_reader; data_reader = false })

  abbrev destroy_compressor : M e (Unit {0})
  destroy_compressor s =
      (tt, record s { objects = s.objects - one_if s.compressor; compressor = false })

  abbrev free_file : M e (Unit {0})
  free_file s = (tt, record s { objects = s.objects - one_if s.file; file = false })

  unfoldable pub sqfs_mgr_unload_image : M e (Unit {0})
  sqfs_mgr_unload_image = destroy_data_reader >> destroy_compressor >> free_file

  -- The label `out`.
  abbrev pub leave : Bool → M e Bool
  leave ok = sqfs_unlock >> pure ok

  abbrev pub set_file : Bool → M e (Unit {0})
  set_file opened s = (tt, record s { file = opened; objects = s.objects + one_if opened })

  abbrev set_compressor : M e (Unit {0})
  set_compressor s = (tt, record s { compressor = true; objects = s.objects + 1 })

  abbrev set_data_reader : Bool → M e (Unit {0})
  set_data_reader made s = (tt, record s { data_reader = made; objects = s.objects + one_if made })

  abbrev pub set_super : Super → M e (Unit {0})
  set_super super s = (tt, record s { block_size = super.block_size })

  -- The lines of sqfs_util_super_info.
  abbrev pub sqfs_util_super_info : M e (Unit {0})
  sqfs_util_super_info =
      call log_msg >> call log_msg >> call log_msg >> call log_msg >> call log_msg

  abbrev pub failed : M e Bool
  failed = do call log_msg; sqfs_mgr_unload_image; leave false

  abbrev pub with_table : Option SqfsError → M e Bool
  with_table (some ret) = failed
  with_table none = leave true

  abbrev pub with_data_reader : Bool → M e Bool
  with_data_reader false = set_data_reader false >> failed
  with_data_reader true = set_data_reader true >> call load_fragment_table >>= with_table

  abbrev pub with_options : Super → Option SqfsError → M e Bool
  with_options super (some ret) = failed
  with_options super none = call (data_reader_create super.block_size) >>= with_data_reader

  abbrev pub options_if : Super → M e (Option SqfsError)
  options_if super s =
      if not (bit_and super.flags compressor_options == 0) then call read_options s else (none, s)

  abbrev pub with_compressor : Super → Option SqfsError → M e Bool
  with_compressor super (some ret) = failed
  with_compressor super none = set_compressor >> options_if super >>= with_options super

  abbrev pub with_config : Super → Option SqfsError → M e Bool
  with_config super (some ret) = failed
  with_config super none = call compressor_create >>= with_compressor super

  abbrev pub with_super : SqfsError ⊎ Super → M e Bool
  with_super (inl ret) = failed
  with_super (inr super) = do
    set_super super
    call log_msg
    sqfs_util_super_info
    ret ← call (compressor_config_init super)
    with_config super ret

  abbrev pub with_file : Bool → M e Bool
  with_file false = set_file false >> call log_msg >> leave false
  with_file true = set_file true >> call super_read >>= with_super

  abbrev pub load_from : Option Str → M e Bool
  load_from none = call log_msg >> leave false
  load_from (some sqfs_path) = call (open_file sqfs_path) >>= with_file

  abbrev pub unless_loaded : M e Bool
  unless_loaded s =
      if sqfs_mgr_loaded_locked s then leave true s else load_from (file_variable s.world) s

  unfoldable pub sqfs_mgr_load_image : M e Bool
  unfolding sqfs_mgr_unload_image
  sqfs_mgr_load_image = sqfs_lock >> unless_loaded
