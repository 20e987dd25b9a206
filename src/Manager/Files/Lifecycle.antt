-- ===== src/Manager/Files/Lifecycle.antt =====
-- sqfs_mgr.c, sqfs_open and the two close calls: the layer that serves a descriptor, and the table.
use hooksqfs.Base.{
  inl, inr, ℕ, ◌+◌, ◌%◌, ◌^◌, ◌≡◌, refl, ◌∙◌, ◌≢◌, inl, inr, Bool, true, false, Option, none, some,
  [], arith, if◌then◌else◌, Option-cases, Str,
}
use hooksqfs.Base.Int.{ℤ, pos, negsuc, minus_one}
use hooksqfs.Inode.{Inode}
use hooksqfs.Env.{Env, Reply, FdEntry}
use hooksqfs.Env.Kernel.{OpenFds}
use hooksqfs.Path.{path_max}
use hooksqfs.Manager.{
  State, call, Check, refused, inside, sqfs_check_path_then_convert, sqfs_find_inode,
}
use hooksqfs.Manager.Backing.{create_backing_fd}
use hooksqfs.Manager.Backing.Rules.{create_backing_fd-Same, create_backing_fd-new}
use hooksqfs.Manager.Effects.{sqfs_find_inode-Same, sqfs_find_inode-open}
use hooksqfs.Manager.Files.{
  open_flags_need_mode, with_entry, with_fd, open_inode, open_sqfs, after_real, sqfs_open,
  sqfs_read, sqfs_close_impl, sqfs_close, sqfs_close_nocancel, or_close,
}
use hooksqfs.Manager.Files.Reads.{sqfs_read-real}

module _ (e : Env) where
  open e.fds use {find, add, IsUnique}

  -- The open of the C library that sqfs_open makes first.
  abbrev pub real_open : Option Str → ℕ → ℕ → State e → ℤ × State e
  real_open pathname flags mode = call (
      e.libc_open pathname flags
        (if open_flags_need_mode flags then some (mode % 2 ^ 32) else none))

  after_real-pos :
      (pathname : Option Str) (flags fd : ℕ) (r : ℤ) (t : State e)
      → r ≡ pos fd
      → after_real e pathname flags r t ≡ (r, t)
  after_real-pos pathname flags fd (pos n) t h = refl
  after_real-pos pathname flags fd (negsuc n) t h = cc

  after_real-refused :
      (pathname : Option Str) (flags n err : ℕ) (r : ℤ) (t : State e)
      → r ≡ negsuc n
      → sqfs_check_path_then_convert e pathname (some []) path_max t.world ≡ refused err
      → after_real e pathname flags r t ≡ (minus_one, t)
  after_real-refused pathname flags n err (pos m) t h c = cc
  after_real-refused pathname flags n err (negsuc m) t h c = rw c

  -- A path that the C library opens is not looked up in the image: the call returns that descriptor
  -- and changes nothing of the manager's state.
  pub sqfs_open-real :
      (pathname : Option Str) (flags mode fd : ℕ) (s : State e)
      → (real_open pathname flags mode s).0 ≡ pos fd
      → sqfs_open e pathname flags mode s ≡ real_open pathname flags mode s
  unfolding sqfs_open
  sqfs_open-real pathname flags mode fd s h =
      let r = real_open pathname flags mode s in after_real-pos pathname flags fd r.0 r.1 h

  -- A path that is not below the prefix, or is the image itself, and that the C library cannot open:
  -- the call is the failed open of the C library, its errno included, and returns -1.
  pub sqfs_open-outside :
      (pathname : Option Str) (flags mode n err : ℕ) (s : State e)
      → let (fd, t) = real_open pathname flags mode s in
        fd ≡ negsuc n
        → sqfs_check_path_then_convert e pathname (some []) path_max t.world ≡ refused err
        → sqfs_open e pathname flags mode s ≡ (minus_one, t)
  unfolding sqfs_open
  sqfs_open-outside pathname flags mode n err s h c =
      let r = real_open pathname flags mode s in after_real-refused pathname flags n err r.0 r.1 h c

  -- Every descriptor of the table is open.
  abbrev pub AllOpen : OpenFds e → e.fds.Map → e.World → Type 0
  AllOpen o m w = (n : ℕ) → find (pos n) m ≢ none → o.IsOpen w n

  -- A descriptor that is not open is not in the table.
  new-find :
      (o : OpenFds e) (m : e.fds.Map) (w : e.World) (fd : ℤ)
      → AllOpen o m w
      → ((n : ℕ) → o.IsOpen w n → fd ≢ pos n)
      → (k : ℕ) → fd ≡ pos k
      → find (pos k) m ≡ none
  new-find o m w fd a d k h = elim (Option-cases (find (pos k) m)) [
    | inl f ↦ f
    | inr (entry, f) ↦ absurd (d k (a k (λ n. ground (arith, f, n))) h)
  ]

  -- An open that was left to the image: a descriptor that is new in the table, at offset 0, or -1 and
  -- the table as it was.
  abbrev pub Opened : e.fds.Map → ℤ × State e → Type 0
  Opened m (negsuc n, t) = (n ≡ 0) × (t.fd_map ≡ m)
  Opened m (pos k, t) =
      ((inode : Inode) × (find (pos k) t.fd_map ≡ some (record { inode = inode; offset = 0 })))
      × (find (pos k) m ≡ none)
      × ((j : ℤ) → j ≢ pos k → find j t.fd_map ≡ find j m)
      × IsUnique t.fd_map

  with_entry-Opened :
      (m : e.fds.Map) (k : ℕ) (inode : Inode) (b : Bool) (t : State e)
      → t.fd_map ≡ m
      → IsUnique m
      → find (pos k) m ≡ none
      → Opened m (with_entry e (pos k) inode b t)
  with_entry-Opened m k inode false t e' u f = (refl, e')
  with_entry-Opened m k inode true t e' u f =
      let entry : FdEntry = record { inode = inode; offset = 0 } in
      rw e' (
        (inode, e.fds.find-add (pos k) entry m f),
        f,
        (λ j d. e.fds.find-add_ne j (pos k) entry m d),
        e.fds.add-IsUnique (pos k) entry m f u,
      )

  with_fd-Opened :
      (m : e.fds.Map) (inode : Inode) (fd : ℤ) (t : State e)
      → t.fd_map ≡ m
      → IsUnique m
      → ((k : ℕ) → fd ≡ pos k → find (pos k) m ≡ none)
      → Opened m (with_fd e inode fd t)
  with_fd-Opened m inode (negsuc n) t e' u f = (refl, e')
  with_fd-Opened m inode (pos k) t e' u f =
      let r = call e.malloc t in with_entry-Opened m k inode r.0 r.1 e' u (f k refl)

  open_inode-Opened :
      (o : OpenFds e) (m : e.fds.Map) (flags : ℕ) (found : Option Inode) (t : State e)
      → t.fd_map ≡ m
      → IsUnique m
      → AllOpen o m t.world
      → Opened m (open_inode e flags found t)
  open_inode-Opened o m flags none t e' u f = (refl, e')
  open_inode-Opened o m flags (some inode) t e' u f =
      let r = create_backing_fd e flags t in
      with_fd-Opened m inode r.0 r.1 ((create_backing_fd-Same e flags t).0.fd_map ∙ e') u
        (new-find o m t.world r.0 f (λ n. create_backing_fd-new e o n flags t))

  open_sqfs-Opened :
      (o : OpenFds e) (m : e.fds.Map) (flags saved : ℕ) (c : Check) (t : State e)
      → t.fd_map ≡ m
      → IsUnique m
      → AllOpen o m t.world
      → Opened m (open_sqfs e flags saved c t)
  open_sqfs-Opened o m flags saved (refused err) t e' u f = (refl, e')
  open_sqfs-Opened o m flags saved (inside relative) t e' u f =
      let start : State e = record t { locks = t.locks + 1 } in
      let r = sqfs_find_inode e relative start in
      open_inode-Opened o m flags r.0 r.1 ((sqfs_find_inode-Same e relative start).0.fd_map ∙ e') u
        (λ n h. sqfs_find_inode-open e (λ w. o.IsOpen w n) (o.kept n) relative start (f n h))

  after_real-Opened :
      (o : OpenFds e) (m : e.fds.Map) (pathname : Option Str) (flags n : ℕ) (r : ℤ) (t : State e)
      → r ≡ negsuc n
      → t.fd_map ≡ m
      → IsUnique m
      → AllOpen o m t.world
      → Opened m (after_real e pathname flags r t)
  after_real-Opened o m pathname flags n (pos k) t h e' u f = cc
  after_real-Opened o m pathname flags n (negsuc k) t h e' u f =
      open_sqfs-Opened o m flags t.errno _ t e' u f

  -- When the C library cannot open a path, sqfs_open on every path either returns -1 and leaves the
  -- table as it was, or returns a descriptor that was not in the table and is there now, with an
  -- inode and the offset 0, all others as before and the keys still unique. The keys are unique
  -- before, and every descriptor of the table is open to the kernel, which gives out none that is.
  pub sqfs_open-Opened :
      (o : OpenFds e) (pathname : Option Str) (flags mode n : ℕ) (s : State e)
      → (real_open pathname flags mode s).0 ≡ negsuc n
      → IsUnique s.fd_map
      → AllOpen o s.fd_map s.world
      → Opened s.fd_map (sqfs_open e pathname flags mode s)
  unfolding sqfs_open
  sqfs_open-Opened o pathname flags mode n s h u f =
      let r = real_open pathname flags mode s in
      let given = if open_flags_need_mode flags then some (mode % 2 ^ 32) else none in
      after_real-Opened o s.fd_map pathname flags n r.0 r.1 h refl u
        (λ k p. (o.kept k).by_open pathname flags given s.world (f k p))

  -- Closing, by whichever close of the C library, takes the descriptor out of the table and no other,
  -- keeps the keys unique, and returns what the C library returns. The keys are unique before.
  pub sqfs_close_impl-gone :
      (fd : ℤ) (real : ℤ → e.World → Reply e.World ℤ) (s : State e)
      → IsUnique s.fd_map
      → let (ret, t) = sqfs_close_impl e fd (some real) s in
        (ret ≡ (real fd s.world).value)
        × (find fd t.fd_map ≡ none)
        × ((j : ℤ) → j ≢ fd → find j t.fd_map ≡ find j s.fd_map)
        × IsUnique t.fd_map
  unfolding sqfs_close_impl
  sqfs_close_impl-gone fd real s u = elim (Option-cases (find fd s.fd_map)) [
    | inl h ↦ rw h (refl, h, (λ j d. refl), u)
    | inr (entry, h) ↦ rw h (
      refl,
      e.fds.find-del fd s.fd_map u,
      (λ j d. e.fds.find-del_ne j fd s.fd_map d),
      e.fds.del-IsUnique fd s.fd_map u,
    )
  ]

  -- After sqfs_close of a descriptor a read of that descriptor is the C library's: a descriptor that
  -- the kernel gives out again is not taken for the file of the image. The keys are unique.
  pub sqfs_close-read :
      (fd : ℤ) (count : ℕ) (s : State e)
      → IsUnique s.fd_map
      → let t = (sqfs_close e fd s).1 in
        sqfs_read e fd count t ≡ call {e = e} (e.libc_read fd count) t
  unfolding sqfs_close
  sqfs_close-read fd count s u =
      sqfs_read-real e fd count (sqfs_close e fd s).1 (sqfs_close_impl-gone fd e.libc_close s u).1

  -- After sqfs_close_nocancel of a descriptor a read of that descriptor is the C library's. The keys
  -- are unique.
  pub sqfs_close_nocancel-read :
      (fd : ℤ) (count : ℕ) (s : State e)
      → IsUnique s.fd_map
      → let t = (sqfs_close_nocancel e fd s).1 in
        sqfs_read e fd count t ≡ call {e = e} (e.libc_read fd count) t
  unfolding sqfs_close_nocancel
  sqfs_close_nocancel-read fd count s u =
      sqfs_read-real e fd count (sqfs_close_nocancel e fd s).1
        (sqfs_close_impl-gone fd (or_close e e.libc_close_nocancel) s u).1
