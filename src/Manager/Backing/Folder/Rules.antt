-- ===== src/Manager/Backing/Folder/Rules.antt =====
-- utils.c, create_backing_dir: the state before and after, and the directory.
use hooksqfs.Base.{
  ℕ, zero, suc, ◌≡◌, ◌≢◌, refl, Option-cases, ◌==◌, Option, none, some, arith, Bool-cases, inl, inr,
  Str,
}
use hooksqfs.Base.Int.{ℤ, pos, negsuc}
use hooksqfs.Errno.{eexist}
use hooksqfs.Env.{Env}
use hooksqfs.Env.Kernel.{OpenDirs}
use hooksqfs.Manager.{State, M, call}
use hooksqfs.Manager.Effects.{Same}
use hooksqfs.Manager.Backing.Folder.{
  opened_dir, open_made, after_mkdir, make_dir, dir_rounds, create_backing_dir,
}

module _ (e : Env) where
  abbrev Calm : State e → State e → Type 0
  Calm s t = Same s t × (t.inodes ≡ s.inodes)

  -- Every directory of the table is open to the C library.
  abbrev pub AllOpenDirs : OpenDirs e → e.dirs.Map → e.World → Type 0
  AllOpenDirs o m w = (k : ℕ) → e.dirs.find k m ≢ none → o.IsOpen w k

  -- What holds of a result, if there is one.
  abbrev pub IsNew : e.dirs.Map → Option ℕ → Type 0
  IsNew m none = Unit
  IsNew m (some folder) = e.dirs.find folder m ≡ none

  pub libc_opendir-IsNew :
      (o : OpenDirs e) (m : e.dirs.Map) (name : Option Str) (w : e.World)
      → AllOpenDirs o m w
      → IsNew m (e.libc_opendir name w).value
  libc_opendir-IsNew o m name w n =
      by_value (e.libc_opendir name w).value (λ k h. o.new_opendir name k w h)
    where
      by_value : (r : Option ℕ) → ((k : ℕ) → o.IsOpen w k → r ≢ some k) → IsNew m r
      by_value none d = tt
      by_value (some k) d = elim (Option-cases (e.dirs.find k m)) [
        | inl f ↦ f
        | inr (entry, f) ↦ absurd (d k (n k (λ g. ground (arith, f, g))) refl)
      ]

  abbrev Good : e.dirs.Map → State e → Option ℕ × State e → Type 0
  Good m s (r, t) = Calm s t × IsNew m r

  opened_dir-Good :
      (m : e.dirs.Map) (saved_errno : ℕ) (folder : Option ℕ) (s t : State e)
      → Calm s t
      → IsNew m folder
      → Good m s (opened_dir e saved_errno folder t)
  opened_dir-Good m saved_errno none s t h n = ground arith
  opened_dir-Good m saved_errno (some folder) s t h n = (h, n)

  open_made-Good :
      (o : OpenDirs e) (m : e.dirs.Map) (path : Str) (s t : State e)
      → AllOpenDirs o m t.world
      → Calm s t
      → Good m s (open_made e path t)
  open_made-Good o m path s t n h =
      let r = call {e = e} (e.libc_opendir (some path)) t in
      let u = call {e = e} (e.rmdir path) r.1 in
      opened_dir-Good m r.1.errno r.0 s u.1 (ground arith)
        (libc_opendir-IsNew o m (some path) t.world n)

  after_mkdir-Good :
      (o : OpenDirs e) (m : e.dirs.Map) (next : M e (Option ℕ)) (path : Str) (ret : ℤ)
      (s t : State e)
      → AllOpenDirs o m t.world
      → ((u : State e) → AllOpenDirs o m u.world → Calm s u → Good m s (next u))
      → Calm s t
      → Good m s (after_mkdir e next path ret t)
  after_mkdir-Good o m next path (pos zero) s t n k h = open_made-Good o m path s t n h
  after_mkdir-Good o m next path (pos (suc v)) s t n k h = elim (Bool-cases (t.errno == eexist)) [
    | inl b ↦ rw b (k t n h)
    | inr b ↦ rw b (h, tt)
  ]
  after_mkdir-Good o m next path (negsuc v) s t n k h = elim (Bool-cases (t.errno == eexist)) [
    | inl b ↦ rw b (k t n h)
    | inr b ↦ rw b (h, tt)
  ]

  dir_rounds-Good :
      (o : OpenDirs e) (m : e.dirs.Map) (rounds : ℕ) (s t : State e)
      → AllOpenDirs o m t.world
      → Calm s t
      → Good m s (dir_rounds e rounds t)
  unfolding dir_rounds
  dir_rounds-Good o m zero s t n h = ground arith
  dir_rounds-Good o m (suc rounds) s t n h =
      let path = e.tmp_dir_path (e.getpid t.world) t.dir_counter in
      let r = make_dir e path t in
      after_mkdir-Good o m (dir_rounds e rounds) path r.0 s r.1
        (λ k h. (o.kept k).by_mkdir path 0o700 t.world (n k h))
        (λ u. dir_rounds-Good o m rounds s u) (ground arith)

  -- create_backing_dir changes nothing of the manager but errno and its counter, and what it returns,
  -- if it returns a directory, is not in a table whose directories are all open.
  pub create_backing_dir-IsNew :
      (o : OpenDirs e) (m : e.dirs.Map) (s : State e)
      → AllOpenDirs o m s.world
      → let (r, t) = create_backing_dir e s in Same s t × (t.inodes ≡ s.inodes) × IsNew m r
  unfolding create_backing_dir
  create_backing_dir-IsNew o m s n =
      let (calm, new) = dir_rounds-Good o m 128 s s n (ground arith) in (calm.0, calm.1, new)
