-- ===== src/Manager/Session.antt =====
-- A process that makes calls of the file entry points, one after the other.
use hooksqfs.Base.{◌+◌, ℕ, Bool, Option, some, List, [], ◌∷◌, arith, Str}
use hooksqfs.Base.Int.{ℤ}
use hooksqfs.Env.{Env}
use hooksqfs.Env.Kernel.{OpenDirs}
use hooksqfs.Manager.{State}
use hooksqfs.Manager.Stats.{sqfs_access, sqfs_xstat}
use hooksqfs.Manager.Stats.Rules.{Queried, sqfs_access-Queried, sqfs_xstat-Queried}
use hooksqfs.Manager.Files.{
  sqfs_open, sqfs_read, sqfs_pread, sqfs_pread64, sqfs_lseek, sqfs_lseek64, sqfs_close,
  sqfs_close_nocancel, or_close,
}
use hooksqfs.Manager.Files.Preads.{Untouched, sqfs_pread-Untouched, sqfs_pread64-Untouched}
use hooksqfs.Manager.Backing.Folder.Rules.{AllOpenDirs}
use hooksqfs.Manager.Folders.Opening.{sqfs_opendir}
use hooksqfs.Manager.Folders.Reading.{sqfs_readdir, sqfs_closedir}
use hooksqfs.Manager.Folders.Ledger.{Ledger, listed}
use hooksqfs.Manager.Folders.Balance.{sqfs_opendir-Ledger}
use hooksqfs.Manager.Folders.Steps.{sqfs_readdir-Ledger, sqfs_closedir-Ledger}
use hooksqfs.Manager.Files.Balance.{
  Owns, Keeps, sqfs_open-Keeps, sqfs_read-Keeps, sqfs_lseek-Keeps, sqfs_lseek64-Keeps,
  sqfs_close_impl-Keeps,
}

pub data Call : Type 0 where
  open_call : Option Str → ℕ → ℕ → Call
  read_call : ℤ → ℕ → Call
  pread_call : ℤ → ℕ → ℤ → Call
  pread64_call : ℤ → ℕ → ℤ → Call
  lseek_call : ℤ → ℤ → ℕ → Call
  lseek64_call : ℤ → ℤ → ℕ → Call
  close_call : ℤ → Call
  close_nocancel_call : ℤ → Call
  access_call : Option Str → ℕ → Call
  xstat_call : ℤ → Option Str → Bool → Call
  opendir_call : ℕ → Option Str → Call
  readdir_call : ℕ → Call
  closedir_call : ℕ → Call

module _ (e : Env) where
  -- The state after a call, whatever it returns.
  abbrev pub after : Call → State e → State e
  after (open_call pathname flags mode) s = (sqfs_open e pathname flags mode s).1
  after (read_call fd count) s = (sqfs_read e fd count s).1
  after (pread_call fd count offset) s = (sqfs_pread e fd count offset s).1
  after (pread64_call fd count offset) s = (sqfs_pread64 e fd count offset s).1
  after (lseek_call fd offset whence) s = (sqfs_lseek e fd offset whence s).1
  after (lseek64_call fd offset whence) s = (sqfs_lseek64 e fd offset whence s).1
  after (close_call fd) s = (sqfs_close e fd s).1
  after (close_nocancel_call fd) s = (sqfs_close_nocancel e fd s).1
  after (access_call pathname mode) s = (sqfs_access e pathname mode s).1
  after (xstat_call ver pathname buf) s = (sqfs_xstat e ver pathname buf s).1
  after (opendir_call fuel name) s = (sqfs_opendir e fuel name s).1
  after (readdir_call dirp) s = (sqfs_readdir e dirp s).1
  after (closedir_call folder) s = (sqfs_closedir e folder s).1

  pub run : List Call → State e → State e
  run [] s = s
  run (c ∷ cs) s = run cs (after c s)

module _ (e : Env) (o : OpenDirs e) where
  -- Where opendir is called, every directory of the table is open.
  abbrev pub Answered : Call → State e → Type 0
  Answered (opendir_call fuel name) s = AllOpenDirs e o s.dir_map s.world
  Answered c s = Unit

  abbrev pub AllAnswered : List Call → State e → Type 0
  AllAnswered [] s = Unit
  AllAnswered (c ∷ cs) s = Answered c s × AllAnswered cs (after e c s)

  module _ (others spare d : ℕ) where
    -- The file calls, which leave the directories alone.
    abbrev outside : State e → ℕ
    outside s = e.dirs.total (listed e) s.dir_map + others

    Owns-of_Ledger : (s : State e) → Ledger e others spare 0 0 d s → Owns e (outside s) s
    Owns-of_Ledger s h = ground arith

    Keeps-Ledger :
        (s t : State e)
        → Ledger e others spare 0 0 d s
        → Keeps e (outside s) s t
        → Ledger e others spare 0 0 d t
    Keeps-Ledger s t h k = ground (arith, h, k.owns, k.dirs)

    Untouched-Ledger :
        (s t : State e)
        → Ledger e others spare 0 0 d s
        → Untouched e s t
        → Ledger e others spare 0 0 d t
    Untouched-Ledger s t h u = ground (arith, h, u.dirs)

    Queried-Ledger :
        (s t : State e)
        → Ledger e others spare 0 0 d s
        → Queried e s t
        → Ledger e others spare 0 0 d t
    Queried-Ledger s t h q = ground (arith, h, q.0.dirs)

    after-Ledger :
        (c : Call) (s : State e)
        → Answered c s
        → Ledger e others spare 0 0 d s
        → Ledger e others spare 0 0 d (after e c s)
    unfolding sqfs_close sqfs_close_nocancel
    after-Ledger (open_call pathname flags mode) s a h =
        Keeps-Ledger s _ h
          (sqfs_open-Keeps e (outside s) pathname flags mode s (Owns-of_Ledger s h))
    after-Ledger (read_call fd count) s a h =
        Keeps-Ledger s _ h (sqfs_read-Keeps e (outside s) fd count s (Owns-of_Ledger s h))
    after-Ledger (pread_call fd count offset) s a h =
        Untouched-Ledger s _ h (sqfs_pread-Untouched e fd count offset s)
    after-Ledger (pread64_call fd count offset) s a h =
        Untouched-Ledger s _ h (sqfs_pread64-Untouched e fd count offset s)
    after-Ledger (lseek_call fd offset whence) s a h =
        Keeps-Ledger s _ h (sqfs_lseek-Keeps e (outside s) fd offset whence s (Owns-of_Ledger s h))
    after-Ledger (lseek64_call fd offset whence) s a h =
        Keeps-Ledger s _ h
          (sqfs_lseek64-Keeps e (outside s) fd offset whence s (Owns-of_Ledger s h))
    after-Ledger (close_call fd) s a h =
        Keeps-Ledger s _ h
          (sqfs_close_impl-Keeps e (outside s) fd (some e.libc_close) s (Owns-of_Ledger s h))
    after-Ledger (close_nocancel_call fd) s a h = Keeps-Ledger s _ h (
        sqfs_close_impl-Keeps e (outside s) fd (some (or_close e e.libc_close_nocancel)) s
          (Owns-of_Ledger s h))
    after-Ledger (access_call pathname mode) s a h =
        Queried-Ledger s _ h (sqfs_access-Queried e pathname mode s)
    after-Ledger (xstat_call ver pathname buf) s a h =
        Queried-Ledger s _ h (sqfs_xstat-Queried e ver pathname buf s)
    after-Ledger (opendir_call fuel name) s a h =
        sqfs_opendir-Ledger e o others spare d fuel name s a h
    after-Ledger (readdir_call dirp) s a h = sqfs_readdir-Ledger e others spare d dirp s h
    after-Ledger (closedir_call folder) s a h = sqfs_closedir-Ledger e others spare d folder s h

    -- Over any sequence of calls on files and directories, whatever each returns: each entry of the two
    -- tables owns its memory, one inode for a file and for each name that a directory lists, and one
    -- reader for a directory, where it does before; and the mutex is as deep as before. Wherever opendir
    -- is called the directories of the table are open to the C library, which gives out none that is.
    pub run-Ledger :
        (calls : List Call) (s : State e)
        → AllAnswered calls s
        → Ledger e others spare 0 0 d s
        → Ledger e others spare 0 0 d (run e calls s)
    unfolding run
    run-Ledger [] s a h = h
    run-Ledger (c ∷ cs) s a h = run-Ledger cs (after e c s) a.1 (after-Ledger c s a.0 h)
