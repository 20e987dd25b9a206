-- ===== src/Manager/Backing/Tests.antt =====
-- create_backing_fd on the sample image, whose kernel has no memfd_create.
use hooksqfs.Base.{◌%◌, ◌^◌, true, ◌≡◌, refl, inl, [], str_eq}
use hooksqfs.Base.Int.{pos, minus_one}
use hooksqfs.Errno.{eexist}
use hooksqfs.Env.{Env}
use hooksqfs.Manager.{State}
use hooksqfs.Manager.Backing.{create_backing_fd}
use hooksqfs.Manager.Backing.Rules.{create_backing_fd-taken}
use hooksqfs.Manager.Sample.{sample, failing, idle}

second_name : (create_backing_fd sample 0 idle).0 ≡ pos 5
unfolding create_backing_fd str_eq
second_name = refl

-- The sample where every name is taken.
abbrev full : Env
full = record sample { openat = λ path flags w. failing minus_one 17 w }

abbrev full_idle : State full
full_idle = record {
  errno = 0;
  world = 0;
  locks = 0;
  file = true;
  compressor = true;
  data_reader = true;
  block_size = 131072;
  fd_map = [];
  inodes = 0;
  readers = 0;
  fd_entries = 0;
  tmp_counter = 0;
  dir_map = [];
  dir_map_entries = 0;
  nodes = 0;
  dir_entries = 0;
  dir_counter = 0;
  objects = 3;
}

create_backing_fd-taken_example :
    let (ret, u) = create_backing_fd full 0 full_idle in
    (ret ≡ minus_one) × (u.errno ≡ eexist) × (u.tmp_counter % 2 ^ 32 ≡ 128 % 2 ^ 32)
create_backing_fd-taken_example =
    create_backing_fd-taken full 0 0 full_idle (λ path flags w. (refl, refl)) refl (inl refl)
