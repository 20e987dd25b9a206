-- ===== src/Manager/Files/Balance.antt =====
-- sqfs_mgr.c, the file entry points: the mutex and the memory that they manage.
use hooksqfs.Base.{
  ℕ, suc, ◌+◌, ◌-◌, ◌%◌, ◌^◌, ◌≡◌, refl, ◌∙◌, Bool, true, false, if◌then◌else◌, Option, none, some,
  arith, Option-cases, inl, inr, Str,
}
use hooksqfs.Base.Int.{ℤ, pos, negsuc}
use hooksqfs.Inode.{Inode}
use hooksqfs.Env.{Env, Reply, FdEntry, Chunk, got, read_error}
use hooksqfs.Seek.{Outcome, moves, fails, max_signed_value_for_size, i64_max}
use hooksqfs.Manager.{State, M, call, sqfs_find_inode, Check, refused, inside}
use hooksqfs.Manager.Backing.{create_backing_fd}
use hooksqfs.Manager.Backing.Rules.{create_backing_fd-Same}
use hooksqfs.Manager.Effects.{Dirs, trans-Dirs, held, sqfs_find_inode-Same}
use hooksqfs.Manager.Files.{
  with_entry, with_fd, open_inode, open_sqfs, after_real, read_result, read_entry, lseek_entry,
  lseek_to, lseek_result, sqfs_lseek_mapped, open_flags_need_mode, real_lseek64, sqfs_open,
  sqfs_read, sqfs_lseek, sqfs_lseek64, sqfs_close_impl,
}

module _ (e : Env) where
  -- Every entry of the table owns one FDMapEntry and one inode; `others` inodes belong elsewhere.
  pub record Owns (others : ℕ) (s : State e) : Type 0 where
    pub inodes : s.inodes ≡ e.fds.count s.fd_map + others
    pub entries : s.fd_entries ≡ e.fds.count s.fd_map

  -- From `s` to `t` nothing leaks: ownership, the lock depth and the directories are kept.
  pub record Keeps (others : ℕ) (s t : State e) : Type 0 where
    pub owns : Owns others t
    pub locks : t.locks ≡ s.locks
    pub dirs : Dirs s t

  -- The state inside the critical section of a call that began in `s`.
  record Locked (others : ℕ) (s t : State e) : Type 0 where
    owns : Owns others t
    locks : t.locks ≡ s.locks + 1
    dirs : Dirs s t

  -- The same with one more inode, which the call has not stored yet.
  record Holding (others : ℕ) (s t : State e) : Type 0 where
    inodes : t.inodes ≡ suc (e.fds.count t.fd_map + others)
    entries : t.fd_entries ≡ e.fds.count t.fd_map
    locks : t.locks ≡ s.locks + 1
    dirs : Dirs s t

  with_entry-Keeps :
      (others : ℕ) (fd : ℤ) (inode : Inode) (b : Bool) (s t : State e)
      → Holding others s t
      → Keeps others s (with_entry e fd inode b t).1
  with_entry-Keeps others fd inode false s t h = ground arith
  with_entry-Keeps others fd inode true s t h =
      ground (arith, e.fds.count-add fd (record { inode = inode; offset = 0 }) t.fd_map)

  with_fd-Keeps :
      (others : ℕ) (inode : Inode) (fd : ℤ) (s t : State e)
      → Holding others s t
      → Keeps others s (with_fd e inode fd t).1
  with_fd-Keeps others inode (negsuc n) s t h = ground arith
  with_fd-Keeps others inode (pos fd) s t h =
      with_entry-Keeps others (pos fd) inode _ s _
        (record { inodes = h.inodes; entries = h.entries; locks = h.locks; dirs = h.dirs })

  open_inode-Keeps :
      (others : ℕ) (flags : ℕ) (found : Option Inode) (s t : State e)
      → t.inodes ≡ e.fds.count t.fd_map + others + held found
      → t.fd_entries ≡ e.fds.count t.fd_map
      → t.locks ≡ s.locks + 1
      → Dirs s t
      → Keeps others s (open_inode e flags found t).1
  open_inode-Keeps others flags none s t i n l r = ground arith
  open_inode-Keeps others flags (some inode) s t i n l r =
      let (same, kept) = create_backing_fd-Same e flags t in
      let b = create_backing_fd e flags t in
      with_fd-Keeps others inode b.0 s b.1 (record {
        inodes = ground (arith, same.fd_map, kept, i);
        entries = ground (arith, same.fd_map, same.fd_entries, n);
        locks = same.locks ∙ l;
        dirs = trans-Dirs s t b.1 r same.dirs;
      })

  open_sqfs-Keeps :
      (others : ℕ) (flags saved : ℕ) (c : Check) (s t : State e)
      → Owns others t
      → t.locks ≡ s.locks
      → Dirs s t
      → Keeps others s (open_sqfs e flags saved c t).1
  open_sqfs-Keeps others flags saved (refused ret) s t o l r = ground arith
  open_sqfs-Keeps others flags saved (inside relative) s t o l k =
      let start : State e = record t { locks = t.locks + 1 } in
      let (same, more) = sqfs_find_inode-Same e relative start in
      let r = sqfs_find_inode e relative start in
      open_inode-Keeps others flags r.0 s r.1 (ground (arith, more, same.fd_map, o.inodes))
        (ground (arith, same.fd_map, same.fd_entries, o.entries)) (omega (arith, same.locks, l))
        (trans-Dirs s t r.1 k same.dirs)

  after_real-Keeps :
      (others : ℕ) (pathname : Option Str) (flags : ℕ) (fd : ℤ) (s t : State e)
      → Owns others t
      → t.locks ≡ s.locks
      → Dirs s t
      → Keeps others s (after_real e pathname flags fd t).1
  after_real-Keeps others pathname flags (pos fd) s t o l r = ground arith
  after_real-Keeps others pathname flags (negsuc n) s t o l r =
      open_sqfs-Keeps others flags t.errno _ s t o l r

  -- sqfs_open, on every path: where every entry of the table owns one inode and one FDMapEntry before
  -- the call, it does after it, the mutex is as deep as before, and no directory reader is left.
  pub sqfs_open-Keeps :
      (others : ℕ) (pathname : Option Str) (flags mode : ℕ) (s : State e)
      → Owns others s
      → Keeps others s (sqfs_open e pathname flags mode s).1
  unfolding sqfs_open
  sqfs_open-Keeps others pathname flags mode s o =
      let arg = if open_flags_need_mode flags then some (mode % 2 ^ 32) else none in
      let r = call {e = e} (e.libc_open pathname flags arg) s in
      after_real-Keeps others pathname flags r.0 s r.1
        (record { inodes = o.inodes; entries = o.entries }) refl (refl, refl, refl)

  read_result-Keeps :
      (others : ℕ) (fd : ℤ) (entry : FdEntry) (chunk : Chunk) (s t : State e)
      → Locked others s t
      → Keeps others s (read_result e fd entry chunk t).1
  read_result-Keeps others fd entry (got n bytes) s t h = ground (
    arith,
    e.fds.count-update fd (record entry { offset = (entry.offset + n) % 2 ^ 64 }) t.fd_map,
  )
  read_result-Keeps others fd entry (read_error err) s t h = ground arith

  read_entry-Keeps :
      (others : ℕ) (fd : ℤ) (count : ℕ) (found : Option FdEntry) (s t : State e)
      → Locked others s t
      → Keeps others s (read_entry e fd count found t).1
  read_entry-Keeps others fd count none s t h = ground arith
  read_entry-Keeps others fd count (some entry) s t h =
      read_result-Keeps others fd entry _ s _ (record {
        owns = record { inodes = h.owns.inodes; entries = h.owns.entries };
        locks = h.locks;
        dirs = h.dirs;
      })

  pub sqfs_read-Keeps :
      (others : ℕ) (fd : ℤ) (count : ℕ) (s : State e)
      → Owns others s
      → Keeps others s (sqfs_read e fd count s).1
  unfolding sqfs_read
  sqfs_read-Keeps others fd count s o =
      read_entry-Keeps others fd count (e.fds.find fd s.fd_map) s _ (record {
        owns = record { inodes = o.inodes; entries = o.entries };
        locks = refl;
        dirs = (refl, refl, refl);
      })

  lseek_to-Locked :
      (others : ℕ) (fd : ℤ) (entry : FdEntry) (max_return : ℕ) (to : Outcome) (s t : State e)
      → Locked others s t
      → Locked others s (lseek_to e fd entry max_return to t).1
  lseek_to-Locked others fd entry max_return (fails err) s t h = ground arith
  lseek_to-Locked others fd entry max_return (moves n) s t h =
      ground (arith, e.fds.count-update fd (record entry { offset = n }) t.fd_map)

  lseek_result-Keeps :
      (others width : ℕ) (r : Option ℕ) (s t : State e)
      → Locked others s t
      → Keeps others s (lseek_result e width r t).1
  lseek_result-Keeps others width none s t h = ground arith
  lseek_result-Keeps others width (some n) s t h = ground arith

  lseek_entry-Keeps :
      (others width max_return : ℕ) (real : M e ℤ) (fd offset : ℤ) (whence : ℕ)
      (found : Option FdEntry) (s t : State e)
      → ((u : State e) → Keeps others s u → Keeps others s (real u).1)
      → Locked others s t
      → Keeps others s (lseek_entry e real width max_return fd offset whence found t).1
  lseek_entry-Keeps others width max_return real fd offset whence none s t k h =
      k (record t { locks = t.locks - 1 }) (ground arith)
  lseek_entry-Keeps others width max_return real fd offset whence (some entry) s t k h =
      let r = sqfs_lseek_mapped e fd entry offset whence max_return t in
      lseek_result-Keeps others width r.0 s r.1 (lseek_to-Locked others fd entry max_return _ s t h)

  call-Keeps :
      {A : Type 0} (others : ℕ) (f : e.World → Reply e.World A) (s t : State e)
      → Keeps others s t
      → Keeps others s (call f t).1
  call-Keeps others f s t h = ground arith

  real_lseek64-Keeps :
      (others : ℕ) (real : Option (ℤ → ℤ → ℕ → e.World → Reply e.World ℤ)) (fd offset : ℤ)
      (whence : ℕ) (s t : State e)
      → Keeps others s t
      → Keeps others s (real_lseek64 e real fd offset whence t).1
  real_lseek64-Keeps others none fd offset whence s t h = ground arith
  real_lseek64-Keeps others (some real) fd offset whence s t h = ground arith

  pub sqfs_lseek-Keeps :
      (others : ℕ) (fd offset : ℤ) (whence : ℕ) (s : State e)
      → Owns others s
      → Keeps others s (sqfs_lseek e fd offset whence s).1
  unfolding sqfs_lseek
  sqfs_lseek-Keeps others fd offset whence s o =
      lseek_entry-Keeps others e.bits (max_signed_value_for_size e.sizeof_off_t)
        (call (e.libc_lseek fd offset whence)) fd offset whence (e.fds.find fd s.fd_map) s
        (record s { locks = s.locks + 1 }) (call-Keeps others (e.libc_lseek fd offset whence) s)
        (record {
          owns = record { inodes = o.inodes; entries = o.entries };
          locks = refl;
          dirs = (refl, refl, refl);
        })

  pub sqfs_lseek64-Keeps :
      (others : ℕ) (fd offset : ℤ) (whence : ℕ) (s : State e)
      → Owns others s
      → Keeps others s (sqfs_lseek64 e fd offset whence s).1
  unfolding sqfs_lseek64
  sqfs_lseek64-Keeps others fd offset whence s o =
      lseek_entry-Keeps others 64 i64_max (real_lseek64 e e.libc_lseek64 fd offset whence) fd offset
        whence (e.fds.find fd s.fd_map) s (record s { locks = s.locks + 1 })
        (real_lseek64-Keeps others e.libc_lseek64 fd offset whence s)
        (record {
          owns = record { inodes = o.inodes; entries = o.entries };
          locks = refl;
          dirs = (refl, refl, refl);
        })

  -- The close of a descriptor, in the table or not, by either entry point: where every entry of the
  -- table owns one inode and one FDMapEntry before the call, it does after it, the mutex is as deep as
  -- before, and no directory reader is left.
  pub sqfs_close_impl-Keeps :
      (others : ℕ) (fd : ℤ) (real : Option (ℤ → e.World → Reply e.World ℤ)) (s : State e)
      → Owns others s
      → Keeps others s (sqfs_close_impl e fd real s).1
  unfolding sqfs_close_impl
  sqfs_close_impl-Keeps others fd none s o = ground arith
  sqfs_close_impl-Keeps others fd (some real) s o = elim (Option-cases (e.fds.find fd s.fd_map)) [
    | inl n ↦ rw n (ground arith)
    | inr (entry, h) ↦ rw h (ground (arith, e.fds.count-del fd entry s.fd_map h))
  ]
