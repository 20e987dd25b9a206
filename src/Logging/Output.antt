-- ===== src/Logging/Output.antt =====
-- logging.c: log_hook and log_msg, down to the system call that writes. A message is the text that its
-- format and arguments give, `none` where vsnprintf fails.
use hooksqfs.Base.{
  ℕ, zero, suc, ◌+◌, ◌-◌, not, Option, none, some, [], ◌∷◌, ◌++◌, ◌==◌, ltb, leb, if◌then◌else◌,
  length, take, drop, Str, codes,
}
use hooksqfs.Base.Int.{ℤ, pos, negsuc}
use hooksqfs.Env.{Reply}
use hooksqfs.Manager.{or_errno}
use hooksqfs.Logging.{log_enabled}

abbrev pub eintr : ℕ
eintr = 4

-- sizeof(buf)
abbrev pub buf_size : ℕ
buf_size = 1024

-- getenv("HOOKSQFS_LOG_FILE"), getenv("HOOKSQFS_LOG_INCLUDE"), and the system calls. A write takes no
-- more bytes than it is given.
pub record Syscalls (W : Type 0) : Type 0 where
  pub log_file : W → Option Str
  pub log_include : W → Option Str
  pub openat : Str → W → Reply W ℤ
  pub write : ℤ → Str → W → Reply W ℤ

-- g_iLogOutputFd, once pthread_once has set it.
pub record Sink (W : Type 0) : Type 0 where
  pub errno : ℕ
  pub world : W
  pub output_fd : Option ℤ

abbrev pub prefix_of : Option Str → Str
prefix_of none = []
prefix_of (some []) = []
prefix_of (some (c ∷ name)) = codes "[hooklog] " ++ c ∷ name ++ codes ": "

-- What vsnprintf leaves in a buffer of `size` bytes, up to its NUL.
abbrev pub printed : ℕ → Str → Str
printed size text = take (size - 1) text ++ 0 ∷ []

-- if (n > (int)sizeof(buf)) n = sizeof(buf)
abbrev pub clip : ℕ → ℕ
clip n = if ltb buf_size n then buf_size else n

module _ {W : Type 0} (o : Syscalls W) where
  open o use {log_file, log_include, openat, write}

  abbrev pub invoke : {A : Type 0} → (W → Reply W A) → Sink W → A × Sink W
  invoke f s =
      let r = f s.world in (r.value, record s { world = r.world; errno = or_errno r.errno s.errno })

  abbrev pub open_log : Option Str → Sink W → ℤ × Sink W
  open_log none s = (pos 1, s)
  open_log (some []) s = (pos 1, s)
  open_log (some (c ∷ path)) s = invoke (openat (c ∷ path)) s

  abbrev pub log_output_init_once : Sink W → ℤ × Sink W
  log_output_init_once s =
      let (fd, t) = open_log (log_file s.world) s in (fd, record t { output_fd = some fd })

  abbrev pub once : Option ℤ → Sink W → ℤ × Sink W
  once none s = log_output_init_once s
  once (some fd) s = (fd, s)

  abbrev pub after_write : (Str → Sink W → Sink W) → Str → ℤ → Sink W → Sink W
  after_write next p (negsuc n) s = if s.errno == eintr then next p s else s
  after_write next p (pos zero) s = s
  after_write next p (pos (suc n)) s = next (drop (suc n) p) s

  -- The `while` loop, at most `fuel` rounds, on the bytes that are left.
  unfoldable pub write_loop : ℕ → ℤ → Str → Sink W → Sink W
  write_loop zero fd p s = s
  write_loop (suc fuel) fd [] s = s
  write_loop (suc fuel) fd (c ∷ p) s =
      let (written, t) = invoke (write fd (c ∷ p)) s in
      after_write (write_loop fuel fd) (c ∷ p) written t

  abbrev pub write_to : ℕ → Str → ℤ → Sink W → Sink W
  write_to fuel buf (negsuc n) s = s
  write_to fuel buf (pos fd) s = write_loop fuel (pos fd) buf s

  abbrev pub log_write : ℕ → Str → Sink W → Sink W
  log_write fuel buf s = let (fd, t) = once s.output_fd s in write_to fuel buf fd t

  unfoldable pub log_msg : ℕ → Option Str → Sink W → Sink W
  unfolding write_loop
  log_msg fuel none s = s
  log_msg fuel (some []) s = s
  log_msg fuel (some (c ∷ text)) s =
      log_write fuel (take (clip (length (c ∷ text))) (printed buf_size (c ∷ text))) s

  abbrev pub after_prefix : ℕ → Str → Option Str → Sink W → Sink W
  after_prefix fuel prefix none s = s
  after_prefix fuel prefix (some []) s = s
  after_prefix fuel prefix (some (c ∷ text)) s =
      log_write fuel
        (take (clip (length prefix + length (c ∷ text)))
          (prefix ++ printed (buf_size - length prefix) (c ∷ text)))
        s

  unfoldable pub log_hook : ℕ → Option Str → Option Str → Sink W → Sink W
  unfolding write_loop
  log_hook fuel func_name text s =
      if not (log_enabled (log_include s.world) func_name)
      then s
      else if leb buf_size (length (prefix_of func_name))
      then s
      else after_prefix fuel (prefix_of func_name) text s
