-- ===== src/Logging/Writes.antt =====
-- logging.c: the bytes that a message adds to the log.
use hooksqfs.Base.{
  codes, none, true, ℕ, zero, suc, ◌+◌, ◌-◌, ◌≤◌, ◌<◌, ◌≡◌, refl, sym, ap, ◌∙◌, ◌⊎◌, inl, inr, not,
  Option, some, [], ◌∷◌, ◌++◌, ltb, leb, if◌then◌else◌, length, length-append, take, drop,
  append_assoc, append-nil, arith, Bool-cases, Str,
}
use hooksqfs.Base.Int.{ℤ, pos, negsuc}
use hooksqfs.Env.{Reply}
use hooksqfs.Logging.{log_enabled}
use hooksqfs.Logging.Output.{
  eintr, buf_size, Syscalls, Sink, prefix_of, printed, clip, invoke, write_loop, log_write, log_msg,
  after_prefix, log_hook,
}
use hooksqfs.Logging.Buffer.{
  logged, after_name, take-drop, length-drop, length-take_long, clip-long, take-buffer,
  take-prefixed,
}

-- "[hooklog] NAME: ", or nothing without a name.
abbrev pub framed : Option Str → Str
framed none = []
framed (some name) = if ltb 0 (length name) then codes "[hooklog] " ++ name ++ codes ": " else []

ltb-suc : (n : ℕ) → ltb 0 (suc n) ≡ true
ltb-suc n = ground arith

prefix_of-framed : (func_name : Option Str) → prefix_of func_name ≡ framed func_name
prefix_of-framed none = refl
prefix_of-framed (some []) = refl
prefix_of-framed (some (c ∷ name)) = rw (ltb-suc (length name)) refl

module _ {W : Type 0} (o : Syscalls W) where
  -- What a write(2) may do that does not fail: it is interrupted by a signal, or takes some bytes.
  pub record Interrupted (output : W → Str) (interruptions : W → ℕ) (w : W) (r : Reply W ℤ)
      : Type 0 where
    pub code : ℕ
    pub negative : r.value ≡ negsuc code
    pub by_signal : r.errno ≡ some eintr
    pub unchanged : output r.world ≡ output w
    pub fewer : interruptions r.world < interruptions w

  pub record Taken (output : W → Str) (interruptions : W → ℕ) (p : Str) (w : W) (r : Reply W ℤ)
      : Type 0 where
    pub more : ℕ
    pub count : r.value ≡ pos (suc more)
    pub within : suc more ≤ length p
    pub appended : output r.world ≡ output w ++ take (suc more) p
    pub no_more : interruptions r.world ≤ interruptions w

  -- A file that can be written to, its contents, and the number of interruptions to come.
  pub record Writable (fd : ℕ) : Type 0 where
    pub output : W → Str
    pub interruptions : W → ℕ
    pub takes :
        (c : ℕ) (p : Str) (w : W)
        → let r = o.write (pos fd) (c ∷ p) w in
          Interrupted output interruptions w r ⊎ Taken output interruptions (c ∷ p) w r

  module _ (fd : ℕ) (f : Writable fd) where
    open f use {output, interruptions}

    -- The loop ends with every byte written, after any number of partial and interrupted writes, in at
    -- most one round for each byte and each interruption.
    pub write_loop-output :
        (fuel : ℕ) (p : Str) (s : Sink W)
        → length p + interruptions s.world ≤ fuel
        → output (write_loop o fuel (pos fd) p s).world ≡ output s.world ++ p
    unfolding write_loop
    write_loop-output zero [] s h = sym (append-nil (output s.world))
    write_loop-output zero (c ∷ p) s h = absurd (omega arith)
    write_loop-output (suc fuel) [] s h = sym (append-nil (output s.world))
    write_loop-output (suc fuel) (c ∷ p) s h =
        let r = invoke o (o.write (pos fd) (c ∷ p)) s in
        elim (f.takes c p s.world) [
          | inl i ↦
              let u : Sink W = record r.1 { errno = eintr } in
              rw i.negative (
                rw i.by_signal (
                  write_loop-output fuel (c ∷ p) u (omega (arith, i.fewer))
                  ∙ ap (λ x. x ++ c ∷ p) i.unchanged))
          | inr t ↦ rw t.count (
              write_loop-output fuel (drop t.more p) r.1
                (omega (arith, t.within, t.no_more, length-drop t.more p (omega (arith, t.within))))
              ∙ ap (λ x. x ++ drop t.more p) t.appended
              ∙ append_assoc (output s.world) (take (suc t.more) (c ∷ p)) (drop t.more p)
              ∙ ap (λ x. output s.world ++ c ∷ x) (take-drop t.more p))
        ]

    -- A message with fuel for its bytes and the interruptions.
    write_to-output :
        (fuel : ℕ) (buf : Str) (s : Sink W)
        → s.output_fd ≡ some (pos fd)
        → length buf + interruptions s.world ≤ fuel
        → output (log_write o fuel buf s).world ≡ output s.world ++ buf
    write_to-output fuel buf s b h =
        rw b (write_loop-output fuel buf (record s { output_fd = some (pos fd) }) h)

    length-logged : (text : Str) → length (logged text) ≤ buf_size
    length-logged text = elim (Bool-cases (ltb (length text) buf_size)) [
      | inl b ↦ rw b (ground arith)
      | inr b ↦
          let (long, size) = clip-long (length text) b in
          rw b (
            omega (
              arith,
              length-append (take (buf_size - 1) text) (0 ∷ []),
              length-take_long (buf_size - 1) text (omega (arith, long)),
            ))
    ]

    write-logged :
        (fuel : ℕ) (buf text : Str) (s : Sink W)
        → s.output_fd ≡ some (pos fd)
        → buf ≡ logged text
        → buf_size + interruptions s.world ≤ fuel
        → output (log_write o fuel buf s).world ≡ output s.world ++ logged text
    write-logged fuel buf text s b e h =
        write_to-output fuel buf s b (rw e (omega (arith, h, length-logged text)))
        ∙ ap (λ x. output s.world ++ x) e

    -- log_msg to a file that can be written to adds its text, if vsnprintf gives one, and a text of 1024
    -- bytes or more as the first 1023 and a NUL.
    pub log_msg-logged :
        (fuel : ℕ) (text : Str) (s : Sink W)
        → s.output_fd ≡ some (pos fd)
        → buf_size + interruptions s.world ≤ fuel
        → output (log_msg o fuel (some text) s).world ≡ output s.world ++ logged text
    unfolding log_msg
    log_msg-logged fuel [] s b h = sym (append-nil (output s.world))
    log_msg-logged fuel (c ∷ text) s b h =
        write-logged fuel (take (clip (length (c ∷ text))) (printed buf_size (c ∷ text))) (c ∷ text)
          s b (take-buffer (length (c ∷ text)) (c ∷ text) refl) h

    -- What log_hook adds: the text behind the name of the function in its frame.
    abbrev pub hook_text : Option Str → Option Str → Str → Str
    hook_text include func_name text =
        if not (log_enabled include func_name)
        then []
        else if leb buf_size (length (framed func_name))
        then []
        else after_name (framed func_name) text

    after_prefix-logged :
        (fuel : ℕ) (prefix text : Str) (s : Sink W)
        → s.output_fd ≡ some (pos fd)
        → length prefix < buf_size
        → buf_size + interruptions s.world ≤ fuel
        → output (after_prefix o fuel prefix (some text) s).world
          ≡ output s.world ++ after_name prefix text
    after_prefix-logged fuel prefix [] s b l h = sym (append-nil (output s.world))
    after_prefix-logged fuel prefix (c ∷ text) s b l h =
        write-logged fuel
          (take (clip (length prefix + length (c ∷ text)))
            (prefix ++ printed (buf_size - length prefix) (c ∷ text)))
          (prefix ++ c ∷ text) s b (take-prefixed prefix (c ∷ text) l) h

    -- log_hook, where the log is open already, its writes do not fail, and vsnprintf gives the text:
    -- it adds nothing if HOOKSQFS_LOG_INCLUDE does not enable the function, or its name leaves no room
    -- in the buffer, or the text is empty; otherwise "[hooklog] ", the name, ": " and the text, of which
    -- 1024 bytes or more become the first 1023 and a NUL.
    pub log_hook-logged :
        (fuel : ℕ) (func_name : Option Str) (text : Str) (s : Sink W)
        → s.output_fd ≡ some (pos fd)
        → buf_size + interruptions s.world ≤ fuel
        → output (log_hook o fuel func_name (some text) s).world
          ≡ output s.world ++ hook_text (o.log_include s.world) func_name text
    unfolding log_hook
    log_hook-logged fuel func_name text s b h =
        rw (prefix_of-framed func_name)
          (elim (Bool-cases (log_enabled (o.log_include s.world) func_name)) [
            | inl yes_logged ↦
                rw yes_logged (elim (Bool-cases (leb buf_size (length (framed func_name)))) [
                  | inl too_long ↦ rw too_long (sym (append-nil (output s.world)))
                  | inr fits ↦ rw fits (
                      rw (prefix_of-framed func_name)
                        (after_prefix-logged fuel (framed func_name) text s b (ground arith) h))
                ])
            | inr off ↦ rw off (sym (append-nil (output s.world)))
          ])
