-- ===== src/Manager/Files.antt =====
-- sqfs_mgr.c, the entry points on file descriptors: open, read, pread, lseek and close.
pub mod Reads
pub mod Preads
pub mod Seeks
pub mod Lifecycle
pub mod Balance
pub mod Contents
mod Tests
use Prim.Native.Nat.{bit_and}
use hooksqfs.Base.{
  ℕ, zero, suc, ◌+◌, ◌-◌, ◌%◌, ◌^◌, ◌≡◌, Bool, true, false, ◌&&◌, ◌||◌, not, Option, none, some,
  List, [], ltb, ◌==◌, if◌then◌else◌, Str,
}
use hooksqfs.Base.Int.{ℤ, pos, negsuc, minus_one, to_signed}
use hooksqfs.Errno.{errno_from_sqfs, enomem, einval, enosys, eoverflow}
use hooksqfs.Inode.{Inode, sqfs_inode_size}
use hooksqfs.Env.{Env, Reply, ReadReply, FdEntry, Chunk, got, read_error}
use hooksqfs.Env.Uthash.{Table}
use hooksqfs.Path.{path_max}
use hooksqfs.Seek.{
  Outcome, moves, fails, Whence, seek_set, seek_cur, seek_end, seek_data, seek_hole, other_whence,
  sqfs_seek_calculate, max_signed_value_for_size, i64_max,
}
use hooksqfs.Manager.Backing.{create_backing_fd}
use hooksqfs.Manager.{
  State, M, ◌>>=◌, ◌>>◌, pure, get_errno, set_errno, call, sqfs_lock, sqfs_unlock, free_inode,
  Check, refused, inside, sqfs_check_path_then_convert, sqfs_find_inode,
}

-- The flags of fcntl.h.
abbrev pub o_creat : ℕ
o_creat = 0o100

abbrev pub o_tmpfile : ℕ
o_tmpfile = 0o20200000

unfoldable pub open_flags_need_mode : ℕ → Bool
open_flags_need_mode flags =
    bit_and flags o_tmpfile == o_tmpfile || not (bit_and flags o_creat == 0)

-- The values of `whence` in unistd.h.
abbrev pub whence_of : ℕ → Whence
whence_of whence =
    if whence == 0
    then seek_set
    else if whence == 1
    then seek_cur
    else if whence == 2
    then seek_end
    else if whence == 3
    then seek_data
    else if whence == 4
    then seek_hole
    else other_whence

abbrev pub no_bytes : ℤ → ReadReply
no_bytes ret = record { ret = ret; bytes = [] }

module _ (e : Env) where
  open e use {
    World, bits, sizeof_off_t, libc_open, libc_read, libc_pread, libc_pread64, libc_lseek,
    libc_lseek64, libc_close, libc_close_nocancel, malloc, log_hook, data_reader_read,
    get_file_size,
  }
  open e.fds use {find, add, update, del}

  abbrev set_map : e.fds.Map → M e (Unit {0})
  set_map m s = (tt, record s { fd_map = m })

  -- The entry `{ fd, inode, 0 }` is added to the table.
  abbrev add_entry : ℤ → Inode → M e (Unit {0})
  add_entry fd inode s = (
    tt,
    record s {
      fd_map = add fd (record { inode = inode; offset = 0 }) s.fd_map;
      fd_entries = s.fd_entries + 1;
    },
  )

  -- The labels error_and_free_inode and error_and_free_fd.
  abbrev error_and_free_inode : M e ℤ
  error_and_free_inode = do free_inode; sqfs_unlock; call log_hook; pure minus_one

  abbrev pub with_entry : ℤ → Inode → Bool → M e ℤ
  with_entry fd inode false = set_errno enomem >> call (libc_close fd) >> error_and_free_inode
  with_entry fd inode true = do add_entry fd inode; set_errno 0; sqfs_unlock; call log_hook; pure fd

  abbrev pub with_fd : Inode → ℤ → M e ℤ
  with_fd inode (negsuc n) = error_and_free_inode
  with_fd inode (pos fd) = call malloc >>= with_entry (pos fd) inode

  abbrev pub open_inode : ℕ → Option Inode → M e ℤ
  open_inode flags none = do
    find_errno ← get_errno
    sqfs_unlock
    call log_hook
    set_errno find_errno
    pure minus_one
  open_inode flags (some inode) = create_backing_fd e flags >>= with_fd inode

  abbrev pub open_sqfs : ℕ → ℕ → Check → M e ℤ
  open_sqfs flags saved_errno (refused ret) = set_errno saved_errno >> pure minus_one
  open_sqfs flags saved_errno (inside relative) =
      sqfs_lock >> sqfs_find_inode e relative >>= open_inode flags

  abbrev pub after_real : Option Str → ℕ → ℤ → M e ℤ
  after_real pathname flags (pos fd) s = (pos fd, s)
  after_real pathname flags (negsuc n) s =
      open_sqfs flags s.errno (sqfs_check_path_then_convert e pathname (some []) path_max s.world) s

  -- `mode` is the third argument, which is read if the flags need one.
  unfoldable pub sqfs_open : Option Str → ℕ → ℕ → M e ℤ
  unfolding open_flags_need_mode
  sqfs_open pathname flags mode =
      call (
        libc_open pathname flags
          (if open_flags_need_mode flags then some (mode % 2 ^ 32) else none))
      >>= after_real pathname flags

  -- size_t narrows to the sqfs_u32 of sqfs_data_reader_read.
  abbrev pub read_chunk : Inode → ℕ → ℕ → M e Chunk
  read_chunk inode offset count = call (data_reader_read inode offset (count % 2 ^ 32))

  abbrev move_by : ℤ → FdEntry → ℕ → M e (Unit {0})
  move_by fd entry n s =
      set_map (update fd (record entry { offset = (entry.offset + n) % 2 ^ 64 }) s.fd_map) s

  abbrev pub read_result : ℤ → FdEntry → Chunk → M e ReadReply
  read_result fd entry (got n bytes) = do
    call log_hook
    move_by fd entry n
    set_errno 0
    sqfs_unlock
    pure (record { ret = pos n; bytes = bytes })
  read_result fd entry (read_error err) = do
    call log_hook
    set_errno (errno_from_sqfs err)
    sqfs_unlock
    pure (no_bytes minus_one)

  abbrev pub read_entry : ℤ → ℕ → Option FdEntry → M e ReadReply
  read_entry fd count none = sqfs_unlock >> call (libc_read fd count)
  read_entry fd count (some entry) =
      read_chunk entry.inode entry.offset count >>= read_result fd entry

  pub sqfs_read : ℤ → ℕ → M e ReadReply
  sqfs_read fd count s = (sqfs_lock >> read_entry fd count (find fd s.fd_map)) s

  abbrev pub pread_result : Chunk → M e ReadReply
  pread_result (got n bytes) = do
    call log_hook
    set_errno 0
    pure (record { ret = pos n; bytes = bytes })
  pread_result (read_error err) = do
    call log_hook
    set_errno (errno_from_sqfs err)
    pure (no_bytes minus_one)

  abbrev pub sqfs_pread_mapped : FdEntry → ℕ → ℤ → M e ReadReply
  sqfs_pread_mapped entry count (negsuc n) = set_errno einval >> pure (no_bytes minus_one)
  sqfs_pread_mapped entry count (pos offset) = read_chunk entry.inode offset count >>= pread_result

  abbrev pub pread_entry : M e ReadReply → ℕ → ℤ → Option FdEntry → M e ReadReply
  pread_entry real count offset none = sqfs_unlock >> real
  pread_entry real count offset (some entry) = do
    result ← sqfs_pread_mapped entry count offset
    sqfs_unlock
    pure result

  pub sqfs_pread : ℤ → ℕ → ℤ → M e ReadReply
  sqfs_pread fd count offset s =
      (sqfs_lock >> pread_entry (call (libc_pread fd count offset)) count offset (find fd s.fd_map))
        s

  abbrev pub real_pread64 :
      Option (ℤ → ℕ → ℤ → World → Reply World ReadReply) → ℤ → ℕ → ℤ → M e ReadReply
  real_pread64 none fd count offset = set_errno enosys >> pure (no_bytes minus_one)
  real_pread64 (some real) fd count offset = call (real fd count offset)

  pub sqfs_pread64 : ℤ → ℕ → ℤ → M e ReadReply
  sqfs_pread64 fd count offset s =
      (sqfs_lock
          >> pread_entry (real_pread64 libc_pread64 fd count offset) count offset
              (find fd s.fd_map))
        s

  -- `some` for a return of 0, with *new_offset.
  abbrev pub lseek_to : ℤ → FdEntry → ℕ → Outcome → M e (Option ℕ)
  lseek_to fd entry max_return (fails err) s = (set_errno err >> call log_hook >> pure none) s
  lseek_to fd entry max_return (moves new_offset) s =
      if ltb max_return new_offset
      then (set_errno eoverflow >> call log_hook >> pure none) s
      else (do
        set_map (update fd (record entry { offset = new_offset }) s.fd_map)
        set_errno 0
        call log_hook
        pure (some new_offset))
          s

  abbrev pub sqfs_lseek_mapped : ℤ → FdEntry → ℤ → ℕ → ℕ → M e (Option ℕ)
  sqfs_lseek_mapped fd entry offset whence max_return = lseek_to fd entry max_return (
      sqfs_seek_calculate (sqfs_inode_size get_file_size entry.inode) entry.offset offset
        (whence_of whence))

  abbrev pub lseek_result : ℕ → Option ℕ → M e ℤ
  lseek_result width none = sqfs_unlock >> pure minus_one
  lseek_result width (some new_offset) = sqfs_unlock >> pure (to_signed width new_offset)

  abbrev pub lseek_entry : M e ℤ → ℕ → ℕ → ℤ → ℤ → ℕ → Option FdEntry → M e ℤ
  lseek_entry real width max_return fd offset whence none = sqfs_unlock >> real
  lseek_entry real width max_return fd offset whence (some entry) =
      sqfs_lseek_mapped fd entry offset whence max_return >>= lseek_result width

  pub sqfs_lseek : ℤ → ℤ → ℕ → M e ℤ
  sqfs_lseek fd offset whence s =
      (sqfs_lock
          >> lseek_entry (call (libc_lseek fd offset whence)) bits
              (max_signed_value_for_size sizeof_off_t) fd offset whence (find fd s.fd_map))
        s

  abbrev pub real_lseek64 : Option (ℤ → ℤ → ℕ → World → Reply World ℤ) → ℤ → ℤ → ℕ → M e ℤ
  real_lseek64 none fd offset whence = set_errno enosys >> pure minus_one
  real_lseek64 (some real) fd offset whence = call (real fd offset whence)

  pub sqfs_lseek64 : ℤ → ℤ → ℕ → M e ℤ
  sqfs_lseek64 fd offset whence s =
      (sqfs_lock
          >> lseek_entry (real_lseek64 libc_lseek64 fd offset whence) 64 i64_max fd offset whence
              (find fd s.fd_map))
        s

  -- HASH_DEL, sqfs_free of the inode and free of the entry.
  abbrev drop_entry : ℤ → M e (Unit {0})
  drop_entry fd s = (
    tt,
    record s { fd_map = del fd s.fd_map; inodes = s.inodes - 1; fd_entries = s.fd_entries - 1 },
  )

  abbrev pub close_entry : (World → Reply World ℤ) → ℤ → Option FdEntry → M e ℤ
  close_entry real_close fd none = sqfs_unlock >> call real_close
  close_entry real_close fd (some entry) = do
    drop_entry fd
    sqfs_unlock
    ret ← call real_close
    saved_errno ← get_errno
    call log_hook
    set_errno saved_errno
    pure ret

  pub sqfs_close_impl : ℤ → Option (ℤ → World → Reply World ℤ) → M e ℤ
  sqfs_close_impl fd none s = (set_errno enosys >> pure minus_one) s
  sqfs_close_impl fd (some real_close) s =
      (sqfs_lock >> close_entry (real_close fd) fd (find fd s.fd_map)) s

  unfoldable pub sqfs_close : ℤ → M e ℤ
  unfolding sqfs_close_impl
  sqfs_close fd = sqfs_close_impl fd (some libc_close)

  abbrev pub or_close : Option (ℤ → World → Reply World ℤ) → ℤ → World → Reply World ℤ
  or_close none = libc_close
  or_close (some nocancel) = nocancel

  unfoldable pub sqfs_close_nocancel : ℤ → M e ℤ
  unfolding sqfs_close_impl
  sqfs_close_nocancel fd = sqfs_close_impl fd (some (or_close libc_close_nocancel))
