-- ===== src/Manager/Files/Seeks.antt =====
-- sqfs_mgr.c, sqfs_lseek and sqfs_lseek64 on a descriptor in the table.
use mathlib.Core.Path.{subst}
use hooksqfs.Base.{
  ℕ, ◌+◌, ◌-◌, ◌^◌, ◌≤◌, ◌<◌, ◌≡◌, refl, ◌⊎◌, inl, inr, Option, none, some, arith, ltb, Bool-cases,
}
use hooksqfs.Base.Int.{ℤ, pos, minus_one, ◌+ℤ◌, to_signed}
use hooksqfs.Errno.{eoverflow}
use hooksqfs.Inode.{sqfs_inode_size}
use hooksqfs.Env.{Env, FdEntry}
use hooksqfs.Seek.{Outcome, moves, fails, sqfs_seek_calculate, max_signed_value_for_size, i64_max}
use hooksqfs.Seek.Exact.{
  position, base_of, IsOff64, sqfs_seek_calculate-position, max_signed_value-off_t,
}
use hooksqfs.Manager.{State}
use hooksqfs.Manager.Files.{whence_of, lseek_to, lseek_result, sqfs_lseek, sqfs_lseek64}

-- Logging leaves errno as it is.
pub record LogIsQuiet (e : Env) : Type 0 where
  pub quiet : (w : e.World) → (e.log_hook w).errno ≡ none

to_signed_small :
    (width n : ℕ) → (width ≡ 32) ⊎ (width ≡ 64) → n < 2 ^ (width - 1) → to_signed width n ≡ pos n
to_signed_small width n (inl e) h = by_width width e h
  where
    at_32 : (n : ℕ) → n < 2 ^ 31 → to_signed 32 n ≡ pos n
    at_32 n h = ground arith

    by_width : (w : ℕ) → w ≡ 32 → n < 2 ^ (w - 1) → to_signed w n ≡ pos n
    by_width w e h = rw e (at_32 n (subst (λ v. n < 2 ^ (v - 1)) e h))
to_signed_small width n (inr e) h = by_width width e h
  where
    at_64 : (n : ℕ) → n < 2 ^ 63 → to_signed 64 n ≡ pos n
    at_64 n h = ground arith

    by_width : (w : ℕ) → w ≡ 64 → n < 2 ^ (w - 1) → to_signed w n ≡ pos n
    by_width w e h = rw e (at_64 n (subst (λ v. n < 2 ^ (v - 1)) e h))

module _ (e : Env) where
  open e.fds use {find}

  -- An lseek that moved to `n`, and one that failed with an errno and moved nothing.
  abbrev pub Moved : ℤ → FdEntry → ℕ → ℤ × State e → Type 0
  Moved fd entry n (r, t) = (r ≡ pos n) × (find fd t.fd_map ≡ some (record entry { offset = n }))

  abbrev pub Stayed : ℕ → State e → ℤ × State e → Type 0
  Stayed err s (r, t) = (r ≡ minus_one) × (t.fd_map ≡ s.fd_map) × (t.errno ≡ err)

  abbrev pub Seeks : ℕ → ℤ → FdEntry → Outcome → State e → ℤ × State e → Type 0
  Seeks max_return fd entry (fails err) s r = Stayed err s r
  Seeks max_return fd entry (moves n) s r =
      ((n ≤ max_return) × Moved fd entry n r) ⊎ ((max_return < n) × Stayed eoverflow s r)

  lseek_to-Seeks :
      (width max_return : ℕ) (fd : ℤ) (entry : FdEntry) (to : Outcome) (s t : State e)
      → LogIsQuiet e
      → max_return < 2 ^ (width - 1)
      → (width ≡ 32) ⊎ (width ≡ 64)
      → find fd s.fd_map ≡ some entry
      → t.fd_map ≡ s.fd_map
      → let r = lseek_to e fd entry max_return to t in
        Seeks max_return fd entry to s (lseek_result e width r.0 r.1)
  lseek_to-Seeks width max_return fd entry (fails err) s t q m w h k =
      (refl, k, rw (q.quiet t.world))
  lseek_to-Seeks width max_return fd entry (moves n) s t q m w h k =
      elim (Bool-cases (ltb max_return n)) [
        | inl over ↦ inr (ground arith, rw over (refl, k, rw (q.quiet t.world)))
        | inr fits ↦ inl (
          ground arith,
          rw fits (
            to_signed_small width n w (ground arith),
            rw k (e.fds.find-update fd (record entry { offset = n }) entry s.fd_map h),
          ),
        )
      ]

  abbrev calculated : FdEntry → ℤ → ℕ → Outcome
  calculated entry offset whence =
      sqfs_seek_calculate (sqfs_inode_size e.get_file_size entry.inode) entry.offset offset
        (whence_of whence)

  -- lseek64 on a mapped descriptor, for every whence.
  pub sqfs_lseek64-Seeks :
      (fd offset : ℤ) (whence : ℕ) (entry : FdEntry) (s : State e)
      → LogIsQuiet e
      → find fd s.fd_map ≡ some entry
      → Seeks i64_max fd entry
          (calculated entry offset whence)
          s
          (sqfs_lseek64 e fd offset whence s)
  unfolding sqfs_lseek64
  sqfs_lseek64-Seeks fd offset whence entry s q h = rw h (
      lseek_to-Seeks 64 i64_max fd entry (calculated entry offset whence) s
        (record s { locks = s.locks + 1 }) q (omega arith) (inr refl) h refl)

  -- The two builds.
  abbrev pub Build : Type 0
  Build = ((e.bits ≡ 32) × (e.sizeof_off_t ≡ 4)) ⊎ ((e.bits ≡ 64) × (e.sizeof_off_t ≡ 8))

  off_t_max : Build → max_signed_value_for_size e.sizeof_off_t < 2 ^ (e.bits - 1)
  unfolding max_signed_value_for_size
  off_t_max (inl b) = rw (b.0, b.1) (omega arith)
  off_t_max (inr b) = rw (b.0, b.1) (omega arith)

  width_of : Build → (e.bits ≡ 32) ⊎ (e.bits ≡ 64)
  width_of (inl b) = inl b.0
  width_of (inr b) = inr b.0

  sqfs_lseek-Seeks :
      (fd offset : ℤ) (whence : ℕ) (entry : FdEntry) (s : State e)
      → LogIsQuiet e
      → Build
      → find fd s.fd_map ≡ some entry
      → Seeks
          (max_signed_value_for_size e.sizeof_off_t)
          fd
          entry
          (calculated entry offset whence)
          s
          (sqfs_lseek e fd offset whence s)
  unfolding sqfs_lseek
  sqfs_lseek-Seeks fd offset whence entry s q b h = rw h (
      lseek_to-Seeks e.bits (max_signed_value_for_size e.sizeof_off_t) fd entry
        (calculated entry offset whence) s (record s { locks = s.locks + 1 }) q (off_t_max b)
        (width_of b) h refl)

  -- What the seek counts from, in a file of the image.
  abbrev pub based : FdEntry → ℕ → Option ℕ
  based entry whence =
      base_of (sqfs_inode_size e.get_file_size entry.inode) entry.offset (whence_of whence)

  -- sqfs_lseek64 of a file in the table, by SEEK_SET, SEEK_CUR or SEEK_END: the call goes to the true
  -- sum of base and offset, returns it and leaves the offset there. Where the sum is negative it
  -- fails with EINVAL, and where it is above INT64_MAX with EOVERFLOW; then it returns -1 and leaves
  -- the table as it was. The base is a uint64_t, the offset an off64_t, and logging leaves errno alone.
  pub sqfs_lseek64-position :
      (fd offset : ℤ) (whence base : ℕ) (entry : FdEntry) (s : State e)
      → LogIsQuiet e
      → find fd s.fd_map ≡ some entry
      → based entry whence ≡ some base
      → base < 2 ^ 64
      → IsOff64 offset
      → Seeks i64_max fd entry (position (pos base +ℤ offset)) s (sqfs_lseek64 e fd offset whence s)
  sqfs_lseek64-position fd offset whence base entry s q h b l o =
      subst (λ to. Seeks i64_max fd entry to s (sqfs_lseek64 e fd offset whence s))
        (sqfs_seek_calculate-position (sqfs_inode_size e.get_file_size entry.inode) entry.offset
          offset (whence_of whence) base b l o)
        (sqfs_lseek64-Seeks fd offset whence entry s q h)

  -- sqfs_lseek of a file in the table, by SEEK_SET, SEEK_CUR or SEEK_END, in the build with 32-bit or
  -- with 64-bit off_t: the call goes to the true sum of base and offset, returns it and leaves the
  -- offset there. Where the sum is negative it fails with EINVAL, and where it is above the largest
  -- off_t with EOVERFLOW; then it returns -1 and leaves the table as it was. The base is a uint64_t,
  -- the offset fits an off64_t, and logging leaves errno alone.
  pub sqfs_lseek-position :
      (fd offset : ℤ) (whence base : ℕ) (entry : FdEntry) (s : State e)
      → LogIsQuiet e
      → Build
      → find fd s.fd_map ≡ some entry
      → based entry whence ≡ some base
      → base < 2 ^ 64
      → IsOff64 offset
      → Seeks
          (2 ^ (e.bits - 1) - 1)
          fd
          entry
          (position (pos base +ℤ offset))
          s
          (sqfs_lseek e fd offset whence s)
  sqfs_lseek-position fd offset whence base entry s q w h b l o =
      subst (λ to. Seeks (2 ^ (e.bits - 1) - 1) fd entry to s (sqfs_lseek e fd offset whence s))
        (sqfs_seek_calculate-position (sqfs_inode_size e.get_file_size entry.inode) entry.offset
          offset (whence_of whence) base b l o)
        (subst
          (λ top.
            Seeks top fd entry (calculated entry offset whence) s (sqfs_lseek e fd offset whence s))
          (off_t_top w) (sqfs_lseek-Seeks fd offset whence entry s q w h))
    where
      off_t_top : Build → max_signed_value_for_size e.sizeof_off_t ≡ 2 ^ (e.bits - 1) - 1
      off_t_top (inl b) = rw (b.0, b.1) max_signed_value-off_t.0
      off_t_top (inr b) = rw (b.0, b.1) max_signed_value-off_t.1
