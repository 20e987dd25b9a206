-- ===== src/Manager/Backing/Rules.antt =====
-- utils.c, create_backing_fd: the state before and after, and the descriptor.
use native.Mathlib.Nat.{mod-add-mod}
use hooksqfs.Base.{
  ℕ, zero, suc, ◌+◌, ◌%◌, ◌^◌, ◌≡◌, ◌≢◌, refl, ap, ◌∙◌, ◌⊎◌, inl, inr, not, ◌&&◌, ◌==◌, some, arith,
  Bool-cases, Str,
}
use hooksqfs.Base.Int.{ℤ, pos, negsuc, minus_one}
use hooksqfs.Errno.{eexist, enosys, einval}
use hooksqfs.Env.{Env}
use hooksqfs.Env.Kernel.{OpenFds}
use hooksqfs.Manager.{State, M}
use hooksqfs.Manager.Effects.{Same}
use hooksqfs.Manager.Backing.{
  tmp_flags, memfd_flags, open_tmp, after_openat, tmp_rounds, after_memfd, create_memfd,
  create_backing_fd,
}

module _ (e : Env) where
  abbrev Plain : State e → State e → Type 0
  Plain s t = Same s t × (t.inodes ≡ s.inodes)

  after_openat-Plain :
      (next : M e ℤ) (path : Str) (fd : ℤ) (s t : State e)
      → ((u : State e) → Plain s u → Plain s (next u).1)
      → Plain s t
      → Plain s (after_openat e next path fd t).1
  after_openat-Plain next path (pos fd) s t k h = ground arith
  after_openat-Plain next path (negsuc n) s t k h = elim (Bool-cases (t.errno == eexist)) [
    | inl b ↦ rw b (k t h)
    | inr b ↦ rw b h
  ]

  tmp_rounds-Plain :
      (rounds flags : ℕ) (s t : State e) → Plain s t → Plain s (tmp_rounds e rounds flags t).1
  unfolding tmp_rounds
  tmp_rounds-Plain zero flags s t h = ground arith
  tmp_rounds-Plain (suc rounds) flags s t h =
      let path = e.tmp_path (e.getpid t.world) t.tmp_counter in
      let r = open_tmp e path flags t in
      after_openat-Plain (tmp_rounds e rounds flags) path r.0 s r.1
        (λ u. tmp_rounds-Plain rounds flags s u) (ground arith)

  after_memfd-Plain :
      (flags : ℕ) (fd : ℤ) (s t : State e) → Plain s t → Plain s (after_memfd e flags fd t).1
  after_memfd-Plain flags (pos fd) s t h = h
  after_memfd-Plain flags (negsuc n) s t h =
      elim (Bool-cases (not (t.errno == enosys) && not (t.errno == einval))) [
        | inl b ↦ rw b h
        | inr b ↦ rw b (tmp_rounds-Plain 128 flags s t h)
      ]

  -- create_backing_fd, on every path, changes nothing of the manager but errno and the counter of the
  -- temporary files.
  pub create_backing_fd-Same :
      (flags : ℕ) (s : State e)
      → let t = (create_backing_fd e flags s).1 in Same s t × (t.inodes ≡ s.inodes)
  unfolding create_backing_fd
  create_backing_fd-Same flags s =
      let r = create_memfd e flags s in after_memfd-Plain flags r.0 s r.1 (ground arith)

  module _ (o : OpenFds e) (n : ℕ) where
    abbrev Open : State e → Type 0
    Open t = o.IsOpen t.world n

    after_openat-new :
        (next : M e ℤ) (path : Str) (fd : ℤ) (t : State e)
        → fd ≢ pos n
        → Open t
        → ((u : State e) → Open u → (next u).0 ≢ pos n)
        → (after_openat e next path fd t).0 ≢ pos n
    after_openat-new next path (pos fd) t d h k = d
    after_openat-new next path (negsuc m) t d h k = elim (Bool-cases (t.errno == eexist)) [
      | inl b ↦ rw b (k t h)
      | inr b ↦ rw b (λ q. cc)
    ]

    tmp_rounds-new :
        (rounds flags : ℕ) (t : State e) → Open t → (tmp_rounds e rounds flags t).0 ≢ pos n
    unfolding tmp_rounds
    tmp_rounds-new zero flags t h = λ q. cc
    tmp_rounds-new (suc rounds) flags t h =
        let path = e.tmp_path (e.getpid t.world) t.tmp_counter in
        let r = open_tmp e path flags t in
        after_openat-new (tmp_rounds e rounds flags) path r.0 r.1
          (o.new_openat path (tmp_flags e flags) n t.world h)
          ((o.kept n).by_openat path (tmp_flags e flags) t.world h)
          (λ u. tmp_rounds-new rounds flags u)

    after_memfd-new :
        (flags : ℕ) (fd : ℤ) (t : State e)
        → fd ≢ pos n
        → Open t
        → (after_memfd e flags fd t).0 ≢ pos n
    after_memfd-new flags (pos fd) t d h = d
    after_memfd-new flags (negsuc m) t d h =
        elim (Bool-cases (not (t.errno == enosys) && not (t.errno == einval))) [
          | inl b ↦ rw b (λ q. cc)
          | inr b ↦ rw b (tmp_rounds-new 128 flags t h)
        ]

    -- create_backing_fd returns no descriptor that is open when it is called.
    pub create_backing_fd-new :
        (flags : ℕ) (s : State e) → Open s → (create_backing_fd e flags s).0 ≢ pos n
    unfolding create_backing_fd
    create_backing_fd-new flags s h =
        let r = create_memfd e flags s in
        after_memfd-new flags r.0 r.1 (o.new_memfd (memfd_flags e flags) n s.world h)
          ((o.kept n).by_memfd_create (memfd_flags e flags) s.world h)

  -- Every name is the name of a file.
  abbrev pub AllTaken : Type 0
  AllTaken =
      (path : Str) (flags : ℕ) (w : e.World)
      → ((e.openat path flags w).value ≡ minus_one) × ((e.openat path flags w).errno ≡ some eexist)

  -- The counter of `t` is `rounds` names further, in its width.
  abbrev pub Counted : ℕ → State e → State e → Type 0
  Counted rounds s t = t.tmp_counter % 2 ^ e.bits ≡ (s.tmp_counter + rounds) % 2 ^ e.bits

  tmp_rounds-taken :
      (rounds flags : ℕ) (s : State e)
      → AllTaken
      → let (ret, t) = tmp_rounds e rounds flags s in
        (ret ≡ minus_one) × (t.errno ≡ eexist) × Counted rounds s t
  unfolding tmp_rounds
  tmp_rounds-taken zero flags s h = (refl, refl, ap (λ c. c % 2 ^ e.bits) (omega arith))
  tmp_rounds-taken (suc rounds) flags s h =
      let path = e.tmp_path (e.getpid s.world) s.tmp_counter in
      let (v, n) = h path (tmp_flags e flags) s.world in
      let r = open_tmp e path flags s in
      let (ret, err, counted) = tmp_rounds-taken rounds flags (record r.1 { errno = eexist }) h in
      rw v (
        rw n (
          ret,
          err,
          counted
              ∙ mod-add-mod (s.tmp_counter + 1) (2 ^ e.bits) rounds
              ∙ ap (λ c. c % 2 ^ e.bits) (omega arith),
        ))

  after_memfd-taken :
      (flags n : ℕ) (fd : ℤ) (t : State e)
      → AllTaken
      → fd ≡ negsuc n
      → (t.errno ≡ enosys) ⊎ (t.errno ≡ einval)
      → let (ret, u) = after_memfd e flags fd t in
        (ret ≡ minus_one) × (u.errno ≡ eexist) × Counted 128 t u
  after_memfd-taken flags n (pos k) t h f o = absurd (ground arith)
  after_memfd-taken flags n (negsuc k) t h f (inl o) =
      rw o (tmp_rounds-taken 128 flags (record t { errno = enosys }) h)
  after_memfd-taken flags n (negsuc k) t h f (inr o) =
      rw o (tmp_rounds-taken 128 flags (record t { errno = einval }) h)

  -- create_backing_fd does not try names for ever: where memfd_create fails with ENOSYS or EINVAL and
  -- each name is taken, it tries 128 names, which the counter counts modulo 2 ^ bits, and returns -1
  -- with EEXIST.
  pub create_backing_fd-taken :
      (flags n : ℕ) (s : State e)
      → let (fd, t) = create_memfd e flags s in
        AllTaken
        → fd ≡ negsuc n
        → (t.errno ≡ enosys) ⊎ (t.errno ≡ einval)
        → let (ret, u) = create_backing_fd e flags s in
          (ret ≡ minus_one)
          × (u.errno ≡ eexist)
          × (u.tmp_counter % 2 ^ e.bits ≡ (s.tmp_counter + 128) % 2 ^ e.bits)
  unfolding create_backing_fd
  create_backing_fd-taken flags n s h f o =
      let r = create_memfd e flags s in after_memfd-taken flags n r.0 r.1 h f o
