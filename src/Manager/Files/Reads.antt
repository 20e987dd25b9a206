-- ===== src/Manager/Files/Reads.antt =====
-- sqfs_mgr.c, sqfs_read: what it returns, and the offset.
use mathlib.Core.Path.{ap₂, subst}
use native.Mathlib.Nat.{mod-eq_of_lt}
use hooksqfs.Base.{
  ℕ, ◌+◌, ◌-◌, ◌%◌, ◌^◌, ◌<◌, ◌≡◌, refl, ap, ◌∙◌, ◌≢◌, none, some, List, [], ◌∷◌, ◌++◌, arith, All,
  length-take-drop, drop-drop, take-take-drop, length, take, drop,
}
use hooksqfs.Base.Int.{ℤ, pos, minus_one}
use hooksqfs.Errno.{errno_from_sqfs}
use hooksqfs.Inode.{Inode}
use hooksqfs.Env.{Env, ReadReply, FdEntry, Chunk, got, read_error}
use hooksqfs.Manager.{State, call}
use hooksqfs.Manager.Files.{no_bytes, sqfs_read, read_chunk, read_result}

lock-unlock : (n : ℕ) → n + 1 - 1 ≡ n
lock-unlock n = omega arith

module _ (e : Env) where
  open e.fds use {Map, find, update}

  -- What a read of `count` bytes of a mapped file says: the bytes that the image gives at the
  -- offset, which moves behind them, or the error, with the offset where it was.
  abbrev pub ReadOf : ℤ → FdEntry → Chunk → State e → ReadReply × State e → Type 0
  ReadOf fd entry (got n bytes) s (r, t) =
      (r ≡ record { ret = pos n; bytes = bytes })
      × (find fd t.fd_map ≡ some (record entry { offset = (entry.offset + n) % 2 ^ 64 }))
      × ((j : ℤ) → j ≢ fd → find j t.fd_map ≡ find j s.fd_map)
      × (t.errno ≡ 0)
  ReadOf fd entry (read_error err) s (r, t) =
      (r ≡ no_bytes minus_one) × (t.fd_map ≡ s.fd_map) × (t.errno ≡ errno_from_sqfs err)

  read_result-ReadOf :
      (fd : ℤ) (entry : FdEntry) (chunk : Chunk) (s t : State e)
      → find fd s.fd_map ≡ some entry
      → t.fd_map ≡ s.fd_map
      → ReadOf fd entry chunk s (read_result e fd entry chunk t)
  read_result-ReadOf fd entry (got n bytes) s t h m =
      let moved : FdEntry = record entry { offset = (entry.offset + n) % 2 ^ 64 } in
      (
        refl,
        rw m (e.fds.find-update fd moved entry s.fd_map h),
        (λ j d. rw m (e.fds.find-update_ne j fd moved s.fd_map d)),
        refl,
      )
  read_result-ReadOf fd entry (read_error err) s t h m = (refl, m, refl)

  -- sqfs_read of a descriptor that is in the table: where libsquashfs gives bytes, these are the
  -- result, the offset of this descriptor and of no other moves by their number, and errno is 0; where
  -- it gives an error, the result is -1 with its errno and the table is as it was.
  pub sqfs_read-ReadOf :
      (fd : ℤ) (count : ℕ) (entry : FdEntry) (s : State e)
      → find fd s.fd_map ≡ some entry
      → ReadOf fd entry
          (e.data_reader_read entry.inode entry.offset (count % 2 ^ 32) s.world).value
          s
          (sqfs_read e fd count s)
  unfolding sqfs_read
  sqfs_read-ReadOf fd count entry s h =
      let r = read_chunk e entry.inode entry.offset count (record s { locks = s.locks + 1 }) in
      rw h (read_result-ReadOf fd entry r.0 s r.1 h refl)

  -- A descriptor that is not in the table is read by the C library, and the state of the manager is
  -- as before.
  pub sqfs_read-real :
      (fd : ℤ) (count : ℕ) (s : State e)
      → find fd s.fd_map ≡ none
      → sqfs_read e fd count s ≡ call {e = e} (e.libc_read fd count) s
  unfolding sqfs_read
  sqfs_read-real fd count s h =
      rw h (
        ap (λ k. call {e = e} (e.libc_read fd count) (record s { locks = k }))
          (lock-unlock s.locks))

  -- What the documentation of libsquashfs says of a file with these contents: a read gives the bytes
  -- at the offset, as many as are asked for and there, whatever was done before.
  pub record Serves (inode : Inode) (content : List ℕ) : Type 0 where
    pub gives :
        (offset count : ℕ) (w : e.World)
        → (e.data_reader_read inode offset count w).value
          ≡ got (length (take count (drop offset content))) (take count (drop offset content))

  -- A descriptor of such a file, at an offset.
  pub record At (fd : ℤ) (content : List ℕ) (offset : ℕ) (s : State e) : Type 0 where
    pub entry : FdEntry
    pub mapped : find fd s.fd_map ≡ some entry
    pub serves : Serves entry.inode content
    pub here : entry.offset ≡ offset
    pub bounded : offset < 2 ^ 64

  at_bounded :
      (count : ℕ) (content : List ℕ) (offset : ℕ)
      → offset < 2 ^ 64
      → length content < 2 ^ 64
      → offset + length (take count (drop offset content)) < 2 ^ 64
  at_bounded count content offset b short = omega (arith, length-take-drop count offset content)

  at_here :
      (count : ℕ) (content : List ℕ) (offset old : ℕ)
      → old ≡ offset
      → offset < 2 ^ 64
      → length content < 2 ^ 64
      → (old + length (take count (drop offset content))) % 2 ^ 64
        ≡ offset + length (take count (drop offset content))
  at_here count content offset old e b short = omega (arith, length-take-drop count offset content)

  pub sqfs_read-At :
      (fd : ℤ) (count : ℕ) (content : List ℕ) (offset : ℕ) (s : State e)
      → At fd content offset s
      → count < 2 ^ 32
      → length content < 2 ^ 64
      → let piece = take count (drop offset content) in
        ((sqfs_read e fd count s).0 ≡ record { ret = pos (length piece); bytes = piece })
        × At fd content (offset + length piece) (sqfs_read e fd count s).1
  sqfs_read-At fd count content offset s a small short =
      let piece = take count (drop offset content) in
      let gives =
        a.serves.gives a.entry.offset (count % 2 ^ 32) s.world
        ∙ ap₂ (λ o k. got (length (take k (drop o content))) (take k (drop o content))) a.here
            (mod-eq_of_lt small) in
      let (ret, moved, others, error) =
        subst (λ chunk. ReadOf fd a.entry chunk s (sqfs_read e fd count s)) gives
          (sqfs_read-ReadOf fd count a.entry s a.mapped) in
      (
        ret,
        record {
          entry = record a.entry { offset = (a.entry.offset + length piece) % 2 ^ 64 };
          mapped = moved;
          serves = a.serves;
          here = at_here count content offset a.entry.offset a.here a.bounded short;
          bounded = at_bounded count content offset a.bounded short;
        },
      )

  -- A program that reads with these counts, one after the other, and keeps all bytes.
  pub read_each : ℤ → List ℕ → State e → List ℕ × State e
  read_each fd [] s = ([], s)
  read_each fd (count ∷ counts) s =
      let (r, t) = sqfs_read e fd count s in
      let (rest, u) = read_each fd counts t in (r.bytes ++ rest, u)

  abbrev pub sum : List ℕ → ℕ
  sum [] = 0
  sum (n ∷ ns) = n + sum ns

  -- Reads one after the other give the contents of the file from the offset on, as many bytes as are
  -- asked for in all, each byte once and in order, up to the end of the file. The counts fit the
  -- sqfs_u32 of libsquashfs, the offset and the file are shorter than 2^64, and the file serves its
  -- contents.
  pub read_each-content :
      (fd : ℤ) (counts : List ℕ) (content : List ℕ) (offset : ℕ) (s : State e)
      → At fd content offset s
      → All (λ n. n < 2 ^ 32) counts
      → length content < 2 ^ 64
      → (read_each fd counts s).0 ≡ take (sum counts) (drop offset content)
  unfolding read_each
  read_each-content fd [] content offset s a small short = refl
  read_each-content fd (count ∷ counts) content offset s a small short =
      let piece = take count (drop offset content) in
      let (r, b) = sqfs_read-At fd count content offset s a small.0 short in
      let rest =
        read_each-content fd counts content (offset + length piece) (sqfs_read e fd count s).1 b
          small.1 short in
      ap₂ (λ (x : ReadReply) (y : List ℕ). x.bytes ++ y) r rest
      ∙ ap (λ xs. piece ++ take (sum counts) xs)
          (drop-drop (length piece) offset (offset + length piece) content refl)
      ∙ take-take-drop count (sum counts) (count + sum counts) (drop offset content) refl
