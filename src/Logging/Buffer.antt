-- ===== src/Logging/Buffer.antt =====
-- logging.c: what is left in the buffer of log_hook and log_msg.
use hooksqfs.Base.{
  ℕ, zero, suc, ◌+◌, ◌-◌, ◌≤◌, ◌<◌, ◌≡◌, refl, sym, ap, ◌∙◌, inl, inr, true, false, [], ◌∷◌, ◌++◌,
  ltb, if◌then◌else◌, length, length-append, take, drop, append_assoc, append-nil, arith,
  Bool-cases, Str,
}
use hooksqfs.Logging.Output.{buf_size, printed, clip}

-- What a message adds: all of it if it is shorter than the buffer, and else its first 1023 bytes and the
-- NUL.
abbrev pub logged : Str → Str
logged text = if ltb (length text) buf_size then text else take (buf_size - 1) text ++ 0 ∷ []

-- Behind a prefix, nothing for an empty text.
abbrev pub after_name : Str → Str → Str
after_name prefix [] = []
after_name prefix (c ∷ text) = logged (prefix ++ c ∷ text)

take_all : (n : ℕ) (s : Str) → length s ≤ n → take n s ≡ s
take_all zero [] h = refl
take_all (suc n) [] h = refl
take_all zero (c ∷ s) h = absurd (omega arith)
take_all (suc n) (c ∷ s) h = ap (λ r. c ∷ r) (take_all n s (omega arith))

take-append : (s t : Str) (n k : ℕ) → n ≡ length s + k → take n (s ++ t) ≡ s ++ take k t
take-append [] t n k h = ap (λ j. take j t) (omega arith)
take-append (c ∷ s) t zero k h = absurd (omega arith)
take-append (c ∷ s) t (suc n) k h = ap (λ r. c ∷ r) (take-append s t n k (omega arith))

pub length-take_long : (n : ℕ) (s : Str) → n ≤ length s → length (take n s) ≡ n
length-take_long zero s h = refl
length-take_long (suc n) [] h = absurd (omega arith)
length-take_long (suc n) (c ∷ s) h = ap suc (length-take_long n s (omega arith))

pub take-drop : (n : ℕ) (s : Str) → take n s ++ drop n s ≡ s
take-drop zero s = refl
take-drop (suc n) [] = refl
take-drop (suc n) (c ∷ s) = ap (λ r. c ∷ r) (take-drop n s)

pub length-drop : (n : ℕ) (s : Str) → n ≤ length s → length (drop n s) + n ≡ length s
length-drop zero s h = omega arith
length-drop (suc n) [] h = absurd (omega arith)
length-drop (suc n) (c ∷ s) h = omega (arith, length-drop n s (omega arith))

cut :
    (m n : ℕ) (text : Str)
    → length text ≤ m
    → n ≡ length text
    → take n (take m text ++ 0 ∷ []) ≡ text
cut m n text h e =
    rw (take_all m text h) (take-append text (0 ∷ []) n 0 (omega arith) ∙ append-nil text)

cut_long :
    (m n : ℕ) (text : Str)
    → m < length text
    → n ≡ m + 1
    → take n (take m text ++ 0 ∷ []) ≡ take m text ++ 0 ∷ []
cut_long m n text h e =
    take_all n (take m text ++ 0 ∷ [])
      (omega (arith, length-append (take m text) (0 ∷ []), length-take_long m text (omega arith)))

clip-short : (n : ℕ) → ltb n buf_size ≡ true → (n ≤ buf_size - 1) × (clip n ≡ n)
clip-short n h = ground arith

pub clip-long : (n : ℕ) → ltb n buf_size ≡ false → (buf_size - 1 < n) × (clip n ≡ buf_size)
clip-long n h = ground arith

-- What log_write is given of a text in the buffer.
pub take-buffer :
    (n : ℕ) (text : Str)
    → n ≡ length text
    → take (clip n) (take (buf_size - 1) text ++ 0 ∷ []) ≡ logged text
take-buffer n text e = elim (Bool-cases (ltb (length text) buf_size)) [
  | inl b ↦
      let (short, same) = clip-short (length text) b in
      rw b (cut (buf_size - 1) (clip n) text short (rw e same))
  | inr b ↦
      let (long, size) = clip-long (length text) b in
      rw b (cut_long (buf_size - 1) (clip n) text long (rw e size))
]

-- The same where a prefix is there first.
pub take-prefixed :
    (prefix text : Str)
    → length prefix < buf_size
    → take (clip (length prefix + length text)) (prefix ++ printed (buf_size - length prefix) text)
      ≡ logged (prefix ++ text)
take-prefixed prefix text h =
    ap (λ buf. take (clip (length prefix + length text)) buf)
      (sym (append_assoc prefix (take (buf_size - length prefix - 1) text) (0 ∷ []))
        ∙ ap (λ r. r ++ 0 ∷ [])
            (sym (
              take-append prefix text (buf_size - 1) (buf_size - length prefix - 1) (omega arith))))
    ∙ take-buffer (length prefix + length text) (prefix ++ text) (sym (length-append prefix text))
