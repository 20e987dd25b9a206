-- ===== src/Logging/Tests.antt =====
-- log_enabled on lists.
use hooksqfs.Base.{◌≡◌, ◌↔◌, refl, true, false, some, none, codes}
use hooksqfs.Base.{str_eq}
use hooksqfs.Logging.{log_enabled}
use hooksqfs.Logging.Selects.{Listed, log_enabled-Listed}

short_name : log_enabled (some (codes "close,  open ,sqfs_read")) (some (codes "sqfs_open")) ≡ true
unfolding log_enabled str_eq
short_name = refl

no_prefix : log_enabled (some (codes "sqfs_openat,rea")) (some (codes "sqfs_open")) ≡ false
unfolding log_enabled str_eq
no_prefix = refl

log_enabled-Listed_example :
    (log_enabled (some (codes "read, ALL,")) none ≡ true) ↔ Listed none (codes "read, ALL,")
log_enabled-Listed_example = log_enabled-Listed none (codes "read, ALL,")
