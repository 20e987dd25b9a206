-- ===== src/Manager/Stats/Rules.antt =====
-- sqfs_mgr.c, sqfs_access and sqfs_xstat: the state before and after, and the answers of access.
use hooksqfs.Base.{
  ℕ, ◌+◌, ◌-◌, ◌≡◌, refl, Bool, true, false, ◌&&◌, not, Option, none, some, [], ◌⊎◌, inl, inr,
  arith, Bool-cases, Str,
}
use hooksqfs.Base.Int.{ℤ, pos, negsuc, minus_one}
use hooksqfs.Errno.{erofs, eacces}
use hooksqfs.Inode.{Stat}
use hooksqfs.Env.{Env}
use hooksqfs.Path.{path_max}
use hooksqfs.Manager.{
  State, call, Check, refused, inside, sqfs_check_path_then_convert, sqfs_stat_impl,
}
use hooksqfs.Manager.Files.Seeks.{LogIsQuiet}
use hooksqfs.Manager.Effects.{Same, sqfs_stat_impl-Same}
use hooksqfs.Manager.Stats.{
  is_zero, r_ok, w_ok, x_ok, has_bits, xstat_sqfs, sqfs_xstat, log_if_inside, return_err, permit,
  access_result, access_sqfs, sqfs_access,
}

module _ (e : Env) where
  -- What a query may change: errno and the outside world.
  abbrev pub Queried : State e → State e → Type 0
  Queried s t = Same s t × (t.inodes ≡ s.inodes)

  log_if_inside-Queried :
      (c : Check) (s t : State e) → Queried s t → Queried s (log_if_inside e c t).1
  log_if_inside-Queried (refused n) s t q = q
  log_if_inside-Queried (inside r) s t q = ground arith

  return_err-Queried :
      (pathname : Option Str) (s t : State e) → Queried s t → Queried s (return_err e pathname t).1
  return_err-Queried pathname s t q = log_if_inside-Queried _ s t q

  permit-Queried :
      (pathname : Option Str) (mode : ℕ) (st : Stat) (s t : State e)
      → Queried s t
      → Queried s (permit e pathname mode st t).1
  permit-Queried pathname mode st s t q = elim (Bool-cases (has_bits mode w_ok)) [
    | inl w ↦ rw w (return_err-Queried pathname s _ (ground arith))
    | inr w ↦ elim (Bool-cases (has_bits mode r_ok && not (has_bits st.st_mode 0o444))) [
      | inl r ↦ rw (w, r) (return_err-Queried pathname s _ (ground arith))
      | inr r ↦ elim (Bool-cases (has_bits mode x_ok && not (has_bits st.st_mode 0o111))) [
        | inl x ↦ rw (w, r, x) (return_err-Queried pathname s _ (ground arith))
        | inr x ↦ rw (w, r, x) (ground arith)
      ]
    ]
  ]

  access_result-Queried :
      (pathname : Option Str) (mode saved : ℕ) (st : Option Stat) (s t : State e)
      → Queried s t
      → Queried s (access_result e pathname mode saved st t).1
  access_result-Queried pathname mode saved none s t q =
      return_err-Queried pathname s _ (ground arith)
  access_result-Queried pathname mode saved (some st) s t q = permit-Queried pathname mode st s t q

  -- The lookup under the lock, unlocked again.
  abbrev looked_up : Option Str → State e → Option Stat × State e
  looked_up relative s =
      let (st, t) = sqfs_stat_impl e relative (record s { locks = s.locks + 1 }) in
      (st, record t { locks = t.locks - 1 })

  looked_up-Queried :
      (relative : Option Str) (s t : State e) → Queried s t → Queried s (looked_up relative t).1
  looked_up-Queried relative s t q =
      ground (arith, sqfs_stat_impl-Same e relative (record t { locks = t.locks + 1 }))

  access_sqfs-Queried :
      (pathname : Option Str) (mode : ℕ) (c : Check) (s t : State e)
      → Queried s t
      → Queried s (access_sqfs e pathname mode c t).1
  access_sqfs-Queried pathname mode (refused ret) s t q =
      return_err-Queried pathname s _ (ground arith)
  access_sqfs-Queried pathname mode (inside relative) s t q =
      let r = looked_up relative t in
      access_result-Queried pathname mode r.1.errno r.0 s r.1 (looked_up-Queried relative s t q)

  -- sqfs_access, on any path and outcome, leaves the manager as it was but for errno: the mutex is as
  -- deep as before, and every inode and directory reader that it allocates is freed.
  pub sqfs_access-Queried :
      (pathname : Option Str) (mode : ℕ) (s : State e) → Queried s (sqfs_access e pathname mode s).1
  unfolding sqfs_access
  sqfs_access-Queried pathname mode s =
      let r = call {e = e} (e.libc_access pathname mode) s in
      elim (Bool-cases (is_zero r.0)) [
        | inl z ↦ rw z (log_if_inside-Queried _ s r.1 (ground arith))
        | inr z ↦ rw z (access_sqfs-Queried pathname mode _ s r.1 (ground arith))
      ]

  xstat_sqfs-Queried :
      (ver : ℤ) (buf : Bool) (buffer : Option Stat) (c : Check) (s t : State e)
      → Queried s t
      → Queried s (xstat_sqfs e ver buf buffer c t).1
  xstat_sqfs-Queried ver buf buffer (refused ret) s t q = ground arith
  xstat_sqfs-Queried ver buf buffer (inside relative) s t q =
      ground (arith, sqfs_stat_impl-Same e relative (record t { locks = t.locks + 1 }))

  -- sqfs_xstat, on any path and outcome, leaves the manager as it was but for errno: the mutex is as
  -- deep as before, and every inode and directory reader that it allocates is freed.
  pub sqfs_xstat-Queried :
      (ver : ℤ) (pathname : Option Str) (buf : Bool) (s : State e)
      → Queried s (sqfs_xstat e ver pathname buf s).1
  unfolding sqfs_xstat
  sqfs_xstat-Queried ver pathname buf s =
      let r = call {e = e} (e.libc_xstat ver pathname buf) s in
      elim (Bool-cases (is_zero r.0.0)) [
        | inl z ↦ rw z (ground arith)
        | inr z ↦ rw z (xstat_sqfs-Queried ver buf r.0.1 _ s r.1 (ground arith))
      ]

  -- The answer to access for a file of a file system that nobody writes to: denied to a writer
  -- with EROFS, denied with EACCES to a reader or to an execution without a permission bit, else
  -- granted.
  abbrev pub Answer : ℕ → ℕ → ℤ × State e → Type 0
  Answer mode bits (r, t) =
      ((has_bits mode w_ok ≡ true) × (r ≡ minus_one) × (t.errno ≡ erofs))
      ⊎ ((has_bits mode w_ok ≡ false)
          × (((has_bits mode r_ok ≡ true) × (has_bits bits 0o444 ≡ false))
              ⊎ ((has_bits mode x_ok ≡ true) × (has_bits bits 0o111 ≡ false)))
          × (r ≡ minus_one)
          × (t.errno ≡ eacces))
      ⊎ ((has_bits mode w_ok ≡ false)
          × ((has_bits mode r_ok ≡ true) → has_bits bits 0o444 ≡ true)
          × ((has_bits mode x_ok ≡ true) → has_bits bits 0o111 ≡ true)
          × (r ≡ pos 0))

  return_err-errno :
      (pathname : Option Str) (s : State e)
      → LogIsQuiet e
      → (return_err e pathname s).1.errno ≡ s.errno
  return_err-errno pathname s q = quiet_for (sqfs_check_path_then_convert e pathname none 0 s.world)
    where
      quiet_for : (c : Check) → (log_if_inside e c s).1.errno ≡ s.errno
      quiet_for (refused n) = refl
      quiet_for (inside r) = rw (q.quiet s.world)

  and_not : (a b : Bool) → a && not b ≡ true → (a ≡ true) × (b ≡ false)
  and_not a b h = ground arith

  and_not-false : (a b : Bool) → a && not b ≡ false → a ≡ true → b ≡ true
  and_not-false a b h t = ground arith

  permit-Answer :
      (pathname : Option Str) (mode : ℕ) (st : Stat) (t : State e)
      → LogIsQuiet e
      → Answer mode st.st_mode (permit e pathname mode st t)
  permit-Answer pathname mode st t q = elim (Bool-cases (has_bits mode w_ok)) [
    | inl w ↦ inl (w, rw w refl, rw w (return_err-errno pathname _ q))
    | inr w ↦ elim (Bool-cases (has_bits mode r_ok && not (has_bits st.st_mode 0o444))) [
      | inl r ↦
          inr (
            inl (w, inl (and_not _ _ r), rw (w, r) refl, rw (w, r) (return_err-errno pathname _ q)))
      | inr r ↦ elim (Bool-cases (has_bits mode x_ok && not (has_bits st.st_mode 0o111))) [
        | inl x ↦ inr (
            inl (
              w,
              inr (and_not _ _ x),
              rw (w, r, x) refl,
              rw (w, r, x) (return_err-errno pathname _ q),
            ))
        | inr x ↦ inr (inr (w, and_not-false _ _ r, and_not-false _ _ x, rw (w, r, x) refl))
      ]
    ]
  ]

  access_sqfs-Answer :
      (pathname : Option Str) (mode : ℕ) (relative : Option Str) (c : Check) (st : Stat)
      (t : State e)
      → LogIsQuiet e
      → c ≡ inside relative
      → (looked_up relative t).0 ≡ some st
      → Answer mode st.st_mode (access_sqfs e pathname mode c t)
  access_sqfs-Answer pathname mode relative c st t q h f =
      rw (h, f) (permit-Answer pathname mode st (looked_up relative t).1 q)

  is_zero_negsuc : (n : ℕ) (r : ℤ) → r ≡ negsuc n → is_zero r ≡ false
  is_zero_negsuc n r h = rw h refl

  -- The access of the C library, which sqfs_access asks first.
  abbrev pub real_access : Option Str → ℕ → State e → ℤ × State e
  real_access pathname mode = call (e.libc_access pathname mode)

  -- access to a file of the image that the C library denies: writing is denied with EROFS, reading
  -- or executing with EACCES where the inode has no such permission bit, and all else is granted.
  -- Logging leaves errno alone.
  pub sqfs_access-Answer :
      (pathname : Option Str) (mode n : ℕ) (relative : Option Str) (st : Stat) (s : State e)
      → LogIsQuiet e
      → let (r, t) = real_access pathname mode s in
        r ≡ negsuc n
        → sqfs_check_path_then_convert e pathname (some []) path_max t.world ≡ inside relative
        → (looked_up relative t).0 ≡ some st
        → Answer mode st.st_mode (sqfs_access e pathname mode s)
  unfolding sqfs_access
  sqfs_access-Answer pathname mode n relative st s q h c f =
      let r = real_access pathname mode s in
      rw (is_zero_negsuc n r.0 h) (access_sqfs-Answer pathname mode relative _ st r.1 q c f)

  -- access to a path that is not below the prefix, or is the image itself, and that the C library
  -- denies: the call returns -1, and errno is that of the path check, whatever errno the C library
  -- set. Logging leaves errno alone.
  pub sqfs_access-outside :
      (pathname : Option Str) (mode n err : ℕ) (s : State e)
      → LogIsQuiet e
      → let (r, t) = real_access pathname mode s in
        r ≡ negsuc n
        → sqfs_check_path_then_convert e pathname (some []) path_max t.world ≡ refused err
        → ((sqfs_access e pathname mode s).0 ≡ minus_one)
          × ((sqfs_access e pathname mode s).1.errno ≡ err)
  unfolding sqfs_access
  sqfs_access-outside pathname mode n err s q h c =
      let r = real_access pathname mode s in
      rw (is_zero_negsuc n r.0 h, c)
        (refl, return_err-errno pathname (record r.1 { errno = err }) q)
