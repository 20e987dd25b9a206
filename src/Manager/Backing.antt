-- ===== src/Manager/Backing.antt =====
-- utils.c, create_memfd, create_unlinked_tmp_fd and create_backing_fd: the descriptor of the kernel
-- behind an open file of the image. The kernel has memfd_create, and O_CLOEXEC is defined.
pub mod Rules
pub mod Folder
mod Tests
use Prim.Native.Nat.{bit_and, bit_or}
use hooksqfs.Base.{
  ℕ, zero, suc, ◌+◌, ◌%◌, ◌^◌, Bool, true, false, ◌&&◌, not, ◌==◌, if◌then◌else◌, Str,
}
use hooksqfs.Base.Int.{ℤ, pos, negsuc, minus_one}
use hooksqfs.Errno.{eexist, einval, enosys}
use hooksqfs.Env.{Env}
use hooksqfs.Manager.{State, M, ◌>>=◌, ◌>>◌, pure, set_errno, call}

-- The flags of fcntl.h and of linux/memfd.h.
abbrev pub o_cloexec : ℕ
o_cloexec = 0o2000000

abbrev pub mfd_cloexec : ℕ
mfd_cloexec = 1

-- O_RDWR | O_CREAT | O_EXCL
abbrev pub o_rdwr_creat_excl : ℕ
o_rdwr_creat_excl = 0o302

abbrev close_on_exec : ℕ → Bool
close_on_exec flags = not (bit_and flags o_cloexec == 0)

module _ (e : Env) where
  open e use {World, bits, memfd_create, openat, unlinkat, getpid, tmp_path}

  abbrev pub memfd_flags : ℕ → ℕ
  memfd_flags flags = if close_on_exec flags then mfd_cloexec else 0

  abbrev pub create_memfd : ℕ → M e ℤ
  create_memfd flags = call (memfd_create (memfd_flags flags))

  -- atomic_fetch_add_explicit(&counter, 1, memory_order_relaxed)
  abbrev fetch_add : M e ℕ
  fetch_add s = (s.tmp_counter, record s { tmp_counter = (s.tmp_counter + 1) % 2 ^ bits })

  abbrev pub tmp_flags : ℕ → ℕ
  tmp_flags flags =
      if close_on_exec flags then bit_or o_rdwr_creat_excl o_cloexec else o_rdwr_creat_excl

  abbrev pub open_tmp : Str → ℕ → M e ℤ
  open_tmp path flags = fetch_add >> call (openat path (tmp_flags flags))

  -- The rest of a round after openat; `next` is the next round.
  abbrev pub after_openat : M e ℤ → Str → ℤ → M e ℤ
  after_openat next path (pos fd) s = (call (unlinkat path) >> pure (pos fd)) s
  after_openat next path (negsuc n) s = if not (s.errno == eexist) then (minus_one, s) else next s

  -- The `for` loop, with the number of rounds that are left.
  pub tmp_rounds : ℕ → ℕ → M e ℤ
  tmp_rounds zero flags s = (set_errno eexist >> pure minus_one) s
  tmp_rounds (suc rounds) flags s =
      let path = tmp_path (getpid s.world) s.tmp_counter in
      let (fd, t) = open_tmp path flags s in after_openat (tmp_rounds rounds flags) path fd t

  abbrev pub create_unlinked_tmp_fd : ℕ → M e ℤ
  create_unlinked_tmp_fd flags = tmp_rounds 128 flags

  abbrev pub after_memfd : ℕ → ℤ → M e ℤ
  after_memfd flags (pos fd) s = (pos fd, s)
  after_memfd flags (negsuc n) s =
      if not (s.errno == enosys) && not (s.errno == einval)
      then (minus_one, s)
      else create_unlinked_tmp_fd flags s

  unfoldable pub create_backing_fd : ℕ → M e ℤ
  unfolding tmp_rounds
  create_backing_fd flags = create_memfd flags >>= after_memfd flags
