-- ===== src/Seek/Exact.antt =====
-- sqfs_mgr.c, sqfs_seek_add and sqfs_seek_calculate, against the integers.
use hooksqfs.Base.{ℕ, Option, none, some, ◌-◌, ◌^◌, ◌<◌, ◌≡◌, refl, arith, ltb, if◌then◌else◌}
use hooksqfs.Base.Int.{ℤ, pos, negsuc, ◌+ℤ◌}
use hooksqfs.Errno.{einval, eoverflow}
use hooksqfs.Seek.{
  Outcome, moves, fails, Whence, seek_set, seek_cur, seek_end, seek_data, seek_hole, other_whence,
  sqfs_seek_add, sqfs_seek_calculate, max_signed_value_for_size,
}

-- An off64_t.
abbrev pub IsOff64 : ℤ → Type 0
IsOff64 (pos n) = n < 2 ^ 63
IsOff64 (negsuc n) = n < 2 ^ 63

-- The position that an integer is: negative ones and those of 2^64 and more are none.
abbrev pub position : ℤ → Outcome
position (negsuc n) = fails einval
position (pos n) = if ltb n (2 ^ 64) then moves n else fails eoverflow

sqfs_seek_add-position :
    (base : ℕ) (offset : ℤ)
    → base < 2 ^ 64
    → IsOff64 offset
    → sqfs_seek_add base offset ≡ position (pos base +ℤ offset)
unfolding sqfs_seek_add
sqfs_seek_add-position base (pos n) h k = ground arith
sqfs_seek_add-position base (negsuc n) h k = ground arith

-- The position that an offset is counted from.
abbrev pub base_of : ℕ → ℕ → Whence → Option ℕ
base_of size old seek_set = some 0
base_of size old seek_cur = some old
base_of size old seek_end = some size
base_of size old _ = none

-- For SEEK_SET, SEEK_CUR and SEEK_END sqfs_seek_calculate gives the true sum of the base and the
-- offset, as integers: EINVAL where that is negative, EOVERFLOW where it is 2^64 or more. The base
-- is a uint64_t and the offset an off64_t.
pub sqfs_seek_calculate-position :
    (size old : ℕ) (offset : ℤ) (whence : Whence) (base : ℕ)
    → base_of size old whence ≡ some base
    → base < 2 ^ 64
    → IsOff64 offset
    → sqfs_seek_calculate size old offset whence ≡ position (pos base +ℤ offset)
unfolding sqfs_seek_calculate
sqfs_seek_calculate-position size old offset seek_set base e h k =
    ground (arith, sqfs_seek_add-position base offset h k)
sqfs_seek_calculate-position size old offset seek_cur base e h k =
    ground (arith, sqfs_seek_add-position base offset h k)
sqfs_seek_calculate-position size old offset seek_end base e h k =
    ground (arith, sqfs_seek_add-position base offset h k)
sqfs_seek_calculate-position size old offset seek_data base e h k = cc
sqfs_seek_calculate-position size old offset seek_hole base e h k = cc
sqfs_seek_calculate-position size old offset other_whence base e h k = cc

-- The largest value of the off_t of either build.
pub max_signed_value-off_t :
    (max_signed_value_for_size 4 ≡ 2 ^ 31 - 1) × (max_signed_value_for_size 8 ≡ 2 ^ 63 - 1)
unfolding max_signed_value_for_size
max_signed_value-off_t = (refl, refl)
