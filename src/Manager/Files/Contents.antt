-- ===== src/Manager/Files/Contents.antt =====
-- sqfs_mgr.c, sqfs_open and then sqfs_read of a file of the image.
use hooksqfs.Base.{
  ℕ, ◌+◌, ◌^◌, ◌<◌, ◌≡◌, refl, ◌∙◌, true, Bool, Option, none, some, List, [], arith, length, take,
  Str, All,
}
use hooksqfs.Base.Int.{ℤ, pos, negsuc}
use hooksqfs.Inode.{Inode}
use hooksqfs.Env.{Env, FdEntry}
use hooksqfs.Path.{path_max}
use hooksqfs.Manager.{State, call, Check, inside, sqfs_check_path_then_convert, sqfs_find_inode}
use hooksqfs.Manager.Backing.{create_backing_fd}
use hooksqfs.Manager.Backing.Rules.{create_backing_fd-Same}
use hooksqfs.Manager.Effects.{sqfs_find_inode-Same}
use hooksqfs.Manager.Files.{with_entry, open_sqfs, after_real, sqfs_open}
use hooksqfs.Manager.Files.Reads.{Serves, At, read_each, sum, read_each-content}
use hooksqfs.Manager.Files.Lifecycle.{real_open}

module _ (e : Env) where
  open e.fds use {find}

  -- A call that returned descriptor `k` for a file with these contents, at its beginning.
  abbrev pub OpenAs : ℕ → List ℕ → ℤ × State e → Type 0
  OpenAs k content (r, t) = (r ≡ pos k) × At e (pos k) content 0 t

  with_entry-OpenAs :
      (inode : Inode) (k : ℕ) (content : List ℕ) (m : e.fds.Map) (b : Bool) (t : State e)
      → b ≡ true
      → t.fd_map ≡ m
      → find (pos k) m ≡ none
      → Serves e inode content
      → OpenAs k content (with_entry e (pos k) inode b t)
  with_entry-OpenAs inode k content m b t b_true same new serves =
      let entry : FdEntry = record { inode = inode; offset = 0 } in
      rw (b_true, same)
        (
          refl,
          record {
            entry = entry;
            mapped = e.fds.find-add (pos k) entry m new;
            serves = serves;
            here = refl;
            bounded = omega arith;
          },
        )

  -- What the lookup and the calls behind it answer for a file of the image.
  pub record Available (relative : Option Str) (flags k : ℕ) (content : List ℕ) (t : State e)
      : Type 0 where
    pub inode : Inode
    pub finds : (sqfs_find_inode e relative t).0 ≡ some inode
    pub backs : (create_backing_fd e flags (sqfs_find_inode e relative t).1).0 ≡ pos k
    pub allocates :
        (e.malloc (create_backing_fd e flags (sqfs_find_inode e relative t).1).1.world).value ≡ true
    pub serves : Serves e inode content

  open_sqfs-OpenAs :
      (relative : Option Str) (flags saved k : ℕ) (content : List ℕ) (c : Check) (t : State e)
      → c ≡ inside relative
      → find (pos k) t.fd_map ≡ none
      → Available relative flags k content (record t { locks = t.locks + 1 })
      → OpenAs k content (open_sqfs e flags saved c t)
  open_sqfs-OpenAs relative flags saved k content c t is_inside new a =
      let start : State e = record t { locks = t.locks + 1 } in
      let r = sqfs_find_inode e relative start in
      let b = create_backing_fd e flags r.1 in
      let m = call {e = e} e.malloc b.1 in
      let same =
        (create_backing_fd-Same e flags r.1).0.fd_map
        ∙ (sqfs_find_inode-Same e relative start).0.fd_map in
      rw (is_inside, a.finds, a.backs)
        (with_entry-OpenAs a.inode k content t.fd_map m.0 m.1 a.allocates same new a.serves)

  after_real-OpenAs :
      (pathname : Option Str) (relative : Option Str) (flags n k : ℕ) (content : List ℕ) (fd : ℤ)
      (t : State e)
      → fd ≡ negsuc n
      → sqfs_check_path_then_convert e pathname (some []) path_max t.world ≡ inside relative
      → find (pos k) t.fd_map ≡ none
      → Available relative flags k content (record t { locks = t.locks + 1 })
      → OpenAs k content (after_real e pathname flags fd t)
  after_real-OpenAs pathname relative flags n k content fd t failed is_inside new a = rw failed (
      open_sqfs-OpenAs relative flags t.errno k content
        (sqfs_check_path_then_convert e pathname (some []) path_max t.world) t is_inside new a)

  -- A file of the image is opened and read to these counts: where the C library cannot open the path,
  -- the path is below the prefix, the lookup finds an inode that serves the contents, and memory and a
  -- descriptor that is not in the table are there, sqfs_open returns that descriptor, and reads of it
  -- give the contents from the beginning, as many bytes as are asked for in all, up to the end. The
  -- counts fit the sqfs_u32 of libsquashfs, and the file is shorter than 2^64.
  pub sqfs_open-content :
      (pathname relative : Option Str) (flags mode n k : ℕ) (content counts : List ℕ) (s : State e)
      → let (fd, t) = real_open e pathname flags mode s in
        fd ≡ negsuc n
        → sqfs_check_path_then_convert e pathname (some []) path_max t.world ≡ inside relative
        → find (pos k) s.fd_map ≡ none
        → Available relative flags k content (record t { locks = t.locks + 1 })
        → All (λ c. c < 2 ^ 32) counts
        → length content < 2 ^ 64
        → let (r, o) = sqfs_open e pathname flags mode s in
          (r ≡ pos k) × ((read_each e (pos k) counts o).0 ≡ take (sum e counts) content)
  unfolding sqfs_open
  sqfs_open-content pathname relative flags mode n k content counts s failed is_inside new a small
        short =
      let r = real_open e pathname flags mode s in
      let (ret, at) =
        after_real-OpenAs pathname relative flags n k content r.0 r.1 failed is_inside new a in
      let o = (after_real e pathname flags r.0 r.1).1 in
      (ret, read_each-content e (pos k) counts content 0 o at small short)
