-- ===== src/Manager/Effects.antt =====
-- sqfs_mgr.c, sqfs_find_inode and sqfs_stat_impl: the state before and after.
use hooksqfs.Base.{
  ℕ, ◌+◌, ◌-◌, ◌⊎◌, inl, inr, Bool-cases, ◌≡◌, ◌∙◌, Option, none, some, [], ◌∷◌, arith, Str,
}
use hooksqfs.Errno.{SqfsError}
use hooksqfs.Env.{Env}
use hooksqfs.Env.Kernel.{Closeless}
use hooksqfs.Inode.{Inode}
use hooksqfs.Manager.{
  State, call, look_up, found, find_with, sqfs_mgr_loaded_locked, sqfs_find_inode, sqfs_stat_impl,
}

-- The directories: the readers, the table and the memory of its entries.
abbrev pub Dirs : {e : Env} → State e → State e → Type 0
Dirs s t =
    (t.readers ≡ s.readers) × (t.dir_map ≡ s.dir_map) × (t.dir_map_entries ≡ s.dir_map_entries)

pub trans-Dirs : {e : Env} (s t u : State e) → Dirs s t → Dirs t u → Dirs s u
trans-Dirs s t u h k = (k.0 ∙ h.0, k.1 ∙ h.1, k.2 ∙ h.2)

-- All fields but errno, the outside world and the counters.
pub record Same {e : Env} (s t : State e) : Type 0 where
  pub locks : t.locks ≡ s.locks
  pub fd_map : t.fd_map ≡ s.fd_map
  pub fd_entries : t.fd_entries ≡ s.fd_entries
  pub file : t.file ≡ s.file
  pub compressor : t.compressor ≡ s.compressor
  pub data_reader : t.data_reader ≡ s.data_reader
  pub block_size : t.block_size ≡ s.block_size
  pub objects : t.objects ≡ s.objects
  pub dirs : Dirs s t

abbrev pub held : Option Inode → ℕ
held none = 0
held (some inode) = 1

module _ (e : Env) where
  -- sqfs_find_inode on every path destroys the reader that it creates, leaves the mutex, the table
  -- and the loaded image as they were, and allocates an inode exactly when it returns one.
  pub sqfs_find_inode-Same :
      (relative : Option Str) (s : State e)
      → let (r, t) = sqfs_find_inode e relative s in Same s t × (t.inodes ≡ s.inodes + held r)
  unfolding sqfs_find_inode
  sqfs_find_inode-Same none s = ground arith
  sqfs_find_inode-Same (some []) s = ground arith
  sqfs_find_inode-Same (some (c ∷ relative)) s = ground arith

  module _ (IsOpen : e.World → Type 0) (k : Closeless e IsOpen) where
    look_up-open :
        (reader : e.Reader) (relative : Str) (w : e.World)
        → IsOpen w
        → IsOpen (look_up e reader relative w).world
    look_up-open reader [] w h = k.by_get_root reader w h
    look_up-open reader (c ∷ relative) w h = k.by_find reader (c ∷ relative) w h

    found-open :
        (ret : SqfsError ⊎ Inode) (t : State e) → IsOpen t.world → IsOpen (found e ret t).1.world
    found-open (inl ret) t h = h
    found-open (inr inode) t h = h

    find_with-open :
        (relative : Str) (reader : Option e.Reader) (t : State e)
        → IsOpen t.world
        → IsOpen (find_with e relative reader t).1.world
    find_with-open relative none t h = h
    find_with-open relative (some reader) t h =
        let r = call {e = e} (look_up e reader relative) (record t { readers = t.readers + 1 }) in
        found-open r.0 (record r.1 { readers = r.1.readers - 1 })
          (look_up-open reader relative t.world h)

    -- What no call of sqfs_find_inode closes is still open after it.
    pub sqfs_find_inode-open :
        (relative : Option Str) (s : State e)
        → IsOpen s.world
        → IsOpen (sqfs_find_inode e relative s).1.world
    unfolding sqfs_find_inode
    sqfs_find_inode-open none s h = h
    sqfs_find_inode-open (some relative) s h = elim (Bool-cases (sqfs_mgr_loaded_locked s)) [
      | inl b ↦
          let r = call {e = e} e.dir_reader_create s in
          rw b (find_with-open relative r.0 r.1 (k.by_create s.world h))
      | inr b ↦ rw b h
    ]

  pub sqfs_stat_impl-Same :
      (relative : Option Str) (s : State e)
      → let (r, t) = sqfs_stat_impl e relative s in Same s t × (t.inodes ≡ s.inodes)
  unfolding sqfs_stat_impl
  sqfs_stat_impl-Same relative s = ground (arith, sqfs_find_inode-Same relative s)
