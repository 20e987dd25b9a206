-- ===== src/Manager/Files/Preads.antt =====
-- sqfs_mgr.c, sqfs_pread and sqfs_pread64.
use native.Mathlib.Nat.{mod-eq_of_lt}
use hooksqfs.Base.{
  ℕ, ◌+◌, ◌-◌, ◌%◌, ◌^◌, ◌<◌, ◌≡◌, ap, sym, ◌∙◌, Option, none, some, List, arith, length, take,
  drop,
}
use hooksqfs.Base.Int.{ℤ, pos, negsuc}
use hooksqfs.Env.{Env, Reply, ReadReply, FdEntry, Chunk, got, read_error}
use hooksqfs.Manager.Effects.{Dirs}
use hooksqfs.Manager.{State, M, call}
use hooksqfs.Manager.Files.{
  sqfs_read, sqfs_pread, sqfs_pread64, pread_entry, pread_result, sqfs_pread_mapped, read_chunk,
  real_pread64,
}
use hooksqfs.Manager.Files.Reads.{At, sqfs_read-At}

module _ (e : Env) where
  open e.fds use {find}

  -- The table, the counters and the depth of the mutex are as before.
  pub record Untouched (s t : State e) : Type 0 where
    pub fd_map : t.fd_map ≡ s.fd_map
    pub inodes : t.inodes ≡ s.inodes
    pub fd_entries : t.fd_entries ≡ s.fd_entries
    pub dirs : Dirs s t
    pub locks : t.locks ≡ s.locks

  pread_result-Untouched :
      (chunk : Chunk) (s t : State e) → Untouched s t → Untouched s (pread_result e chunk t).1
  pread_result-Untouched (got n bytes) s t u = ground arith
  pread_result-Untouched (read_error err) s t u = ground arith

  pread_mapped-Untouched :
      (entry : FdEntry) (count : ℕ) (offset : ℤ) (s t : State e)
      → Untouched s t
      → Untouched s (sqfs_pread_mapped e entry count offset t).1
  pread_mapped-Untouched entry count (negsuc n) s t u = ground arith
  pread_mapped-Untouched entry count (pos offset) s t u =
      let r = read_chunk e entry.inode offset count t in
      pread_result-Untouched r.0 s r.1 (ground arith)

  pread_entry-Untouched :
      (real : M e ReadReply) (count : ℕ) (offset : ℤ) (found : Option FdEntry) (s : State e)
      → ((t : State e) → Untouched t (real t).1)
      → Untouched s (pread_entry e real count offset found (record s { locks = s.locks + 1 })).1
  pread_entry-Untouched real count offset none s k =
      let u = k (record s { locks = s.locks + 1 - 1 }) in ground arith
  pread_entry-Untouched real count offset (some entry) s k =
      let t : State e = record s { locks = s.locks + 1 } in
      let u = pread_mapped-Untouched entry count offset t t (ground arith) in ground arith

  real_pread64-Untouched :
      (real : Option (ℤ → ℕ → ℤ → e.World → Reply e.World ReadReply)) (fd : ℤ) (count : ℕ)
      (offset : ℤ) (s : State e)
      → Untouched s (real_pread64 e real fd count offset s).1
  real_pread64-Untouched none fd count offset s = ground arith
  real_pread64-Untouched (some real) fd count offset s = ground arith

  pub sqfs_pread-Untouched :
      (fd : ℤ) (count : ℕ) (offset : ℤ) (s : State e)
      → Untouched s (sqfs_pread e fd count offset s).1
  unfolding sqfs_pread
  sqfs_pread-Untouched fd count offset s =
      pread_entry-Untouched (call (e.libc_pread fd count offset)) count offset (find fd s.fd_map) s
        (λ t. ground arith)

  -- sqfs_pread64, on any path, leaves the table with all its offsets, the counters of what is
  -- allocated and the depth of the mutex as they were.
  pub sqfs_pread64-Untouched :
      (fd : ℤ) (count : ℕ) (offset : ℤ) (s : State e)
      → Untouched s (sqfs_pread64 e fd count offset s).1
  unfolding sqfs_pread64
  sqfs_pread64-Untouched fd count offset s =
      pread_entry-Untouched (real_pread64 e e.libc_pread64 fd count offset) count offset
        (find fd s.fd_map) s (λ t. real_pread64-Untouched e.libc_pread64 fd count offset t)

  pread_result-got :
      (chunk : Chunk) (n : ℕ) (bytes : List ℕ) (t : State e)
      → chunk ≡ got n bytes
      → (pread_result e chunk t).0 ≡ record { ret = pos n; bytes = bytes }
  pread_result-got chunk n bytes t h = rw h

  -- A pread at the offset of a descriptor of the table has the result and the bytes of a read there.
  -- The file serves its contents, it and the offset are below 2^64, and the count fits the sqfs_u32 of
  -- libsquashfs.
  pub sqfs_read-pread :
      (fd : ℤ) (count : ℕ) (content : List ℕ) (offset : ℕ) (s : State e)
      → At e fd content offset s
      → count < 2 ^ 32
      → length content < 2 ^ 64
      → (sqfs_read e fd count s).0 ≡ (sqfs_pread e fd count (pos offset) s).0
  unfolding sqfs_pread
  sqfs_read-pread fd count content offset s a small short =
      let locked : State e = record s { locks = s.locks + 1 } in
      let r = read_chunk e a.entry.inode offset count locked in
      let piece = take count (drop offset content) in
      let gives : r.0 ≡ got (length piece) piece =
        a.serves.gives offset (count % 2 ^ 32) s.world
        ∙ ap (λ k. got (length (take k (drop offset content))) (take k (drop offset content)))
            (mod-eq_of_lt small) in
      (sqfs_read-At e fd count content offset s a small short).0
      ∙ rw a.mapped (sym (pread_result-got r.0 (length piece) piece r.1 gives))
