-- ===== src/Logging/OutputTests.antt =====
-- A log file whose writes are interrupted some times, and then take one byte each.
use hooksqfs.Base.{
  ℕ, zero, suc, ◌≡◌, refl, ◌⊎◌, inl, inr, none, some, ◌∷◌, ◌++◌, take, arith, Str, codes,
}
use hooksqfs.Base.Int.{ℤ, pos, minus_one}
use hooksqfs.Logging.{log_enabled}
use hooksqfs.Base.{str_eq}
use hooksqfs.Env.{Reply}
use hooksqfs.Logging.Output.{eintr, Syscalls, Sink, write_loop, log_hook}
use hooksqfs.Logging.Writes.{Interrupted, Taken, Writable, write_loop-output, log_hook-logged}

-- The contents of the file, and the interruptions to come.
abbrev World : Type 0
World = Str × ℕ

abbrev slow_write : Str → World → Reply World ℤ
slow_write p (out, zero) = record { value = pos 1; errno = none; world = (out ++ take 1 p, 0) }
slow_write p (out, suc n) = record { value = minus_one; errno = some eintr; world = (out, n) }

abbrev slow : Syscalls World
slow = record {
  log_file = λ w. none;
  log_include = λ w. some (codes "open");
  openat = λ path w. record { value = minus_one; errno = none; world = w };
  write = λ fd p w. slow_write p w;
}

slow-takes :
    (c : ℕ) (p : Str) (w : World)
    → let r = slow_write (c ∷ p) w in
      Interrupted slow (λ v. v.0) (λ v. v.1) w r ⊎ Taken slow (λ v. v.0) (λ v. v.1) (c ∷ p) w r
slow-takes c p (out, zero) = inr (record {
  more = 0;
  count = refl;
  within = omega arith;
  appended = refl;
  no_more = omega arith;
})
slow-takes c p (out, suc n) =
    inl (record {
      code = 0;
      negative = refl;
      by_signal = refl;
      unchanged = refl;
      fewer = omega arith;
    })

abbrev writable : Writable slow 1
writable = record { output = λ v. v.0; interruptions = λ v. v.1; takes = slow-takes }

abbrev started : Sink World
started = record { errno = 0; world = (codes "a", 2); output_fd = some (pos 1) }

write_loop-output_example : (write_loop slow 5 (pos 1) (codes "bcd") started).world.0 ≡ codes "abcd"
write_loop-output_example = write_loop-output slow 1 writable 5 (codes "bcd") started (omega arith)

log_hook-logged_example :
    (log_hook slow 1026 (some (codes "sqfs_open")) (some (codes "hi")) started).world.0
    ≡ codes "a[hooklog] sqfs_open: hi"
unfolding log_enabled str_eq
log_hook-logged_example =
    log_hook-logged slow 1 writable 1026 (some (codes "sqfs_open")) (codes "hi") started refl
      (omega arith)
