-- ===== src/Seek/Tests.antt =====
-- The seek arithmetic at concrete offsets.
use hooksqfs.Base.{◌≡◌, refl, arith}
use hooksqfs.Base.Int.{pos, negsuc, ◌+ℤ◌}
use hooksqfs.Seek.{sqfs_seek_calculate, seek_end}
use hooksqfs.Seek.Exact.{position, sqfs_seek_calculate-position}

sqfs_seek_calculate-position_example :
    sqfs_seek_calculate 10 3 (negsuc 10) seek_end ≡ position (pos 10 +ℤ negsuc 10)
sqfs_seek_calculate-position_example =
    sqfs_seek_calculate-position 10 3 (negsuc 10) seek_end 10 refl (omega arith) (omega arith)
