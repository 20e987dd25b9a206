-- ===== src/Logging/Pieces.antt =====
-- logging.c, log_enabled: the items of its list, and how it cuts them out.
use hooksqfs.Base.{
  ℕ, zero, suc, ◌≤◌, ◌<◌, ◌≡◌, inl, inr, refl, sym, ap, ◌∙◌, Bool, true, false, ◌&&◌, List, [], ◌∷◌,
  ◌++◌, ◌==◌, arith, Bool-cases, if◌then◌else◌, length, take, drop, Str,
}
use hooksqfs.Path.{char_at}
use hooksqfs.Logging.{is_blank, skip_blanks, scan_token, trim_len, skip_comma}

-- The pieces between the commas; a comma at the end opens none.
abbrev pub add_head : ℕ → List Str → List Str
add_head c [] = (c ∷ []) ∷ []
add_head c (piece ∷ pieces) = (c ∷ piece) ∷ pieces

unfoldable pub pieces : Str → List Str
pieces [] = []
pieces (c ∷ s) = let rest = pieces s in if c == b',' then [] ∷ rest else add_head c rest

-- A piece without the blanks at its ends.
abbrev pub no_byte : Str → Bool
no_byte [] = true
no_byte (c ∷ s) = false

unfoldable pub trim_end : Str → Str
trim_end [] = []
trim_end (c ∷ s) = let rest = trim_end s in if is_blank c && no_byte rest then [] else c ∷ rest

unfoldable pub trim : Str → Str
trim s = trim_end (skip_blanks s)

pub pieces-scan_token :
    (c : ℕ) (s : Str)
    → let (token, p) = scan_token (c ∷ s) in pieces (c ∷ s) ≡ token ∷ pieces (skip_comma p)
unfolding pieces scan_token
pieces-scan_token c [] = ground arith
pieces-scan_token c (d ∷ s) = ground (arith, pieces-scan_token d s)

pub scan_token-skip_blanks :
    (s : Str) → let (token, p) = scan_token s in scan_token (skip_blanks s) ≡ (skip_blanks token, p)
unfolding scan_token skip_blanks
scan_token-skip_blanks [] = refl
scan_token-skip_blanks (c ∷ s) = ground (arith, scan_token-skip_blanks s)

pub length-skip_comma :
    (c : ℕ) (s : Str) → length (skip_comma (scan_token (c ∷ s)).1) < length (c ∷ s)
unfolding scan_token
length-skip_comma c [] = ground arith
length-skip_comma c (d ∷ s) = ground (arith, length-skip_comma d s)

pub trim_end-snoc :
    (xs : Str) (c : ℕ)
    → trim_end (xs ++ c ∷ []) ≡ (if is_blank c then trim_end xs else xs ++ c ∷ [])
unfolding trim_end
trim_end-snoc [] c = ground arith
trim_end-snoc (x ∷ xs) c = elim (Bool-cases (is_blank c)) [
  | inl b ↦ rw (trim_end-snoc xs c, b) refl
  | inr b ↦ rw (trim_end-snoc xs c, b, no_byte_snoc xs c) (ground arith)
]
  where
    no_byte_snoc : (xs : Str) (c : ℕ) → no_byte (xs ++ c ∷ []) ≡ false
    no_byte_snoc [] c = refl
    no_byte_snoc (x ∷ xs) c = refl

pub take_snoc : (n : ℕ) (s : Str) → n < length s → take (suc n) s ≡ take n s ++ char_at s n ∷ []
take_snoc zero (c ∷ s) h = refl
take_snoc (suc n) (c ∷ s) h = ap (λ r. c ∷ r) (take_snoc n s (omega arith))
take_snoc n [] h = absurd (omega arith)

pub take-trim_len : (s : Str) (n : ℕ) → n ≤ length s → take (trim_len s n) s ≡ trim_end (take n s)
unfolding trim_len
take-trim_len s zero h = unfold trim_end in refl
take-trim_len s (suc n) h =
    let snoc = take_snoc n s (omega arith) in
    let ends = trim_end-snoc (take n s) (char_at s n) in
    elim (Bool-cases (is_blank (char_at s n))) [
      | inl b ↦ rw b (take-trim_len s n (omega arith) ∙ sym (rw snoc (rw b at ends)))
      | inr b ↦ rw b (snoc ∙ sym (rw snoc (rw b at ends)))
    ]

pub trim_len-le : (s : Str) (n : ℕ) → trim_len s n ≤ n
unfolding trim_len
trim_len-le s zero = omega arith
trim_len-le s (suc n) = ground (arith, trim_len-le s n)

pub take-length : (s : Str) → take (length s) s ≡ s
take-length [] = refl
take-length (c ∷ s) = ap (λ r. c ∷ r) (take-length s)

pub length-take : (n : ℕ) (s : Str) → n ≤ length s → length (take n s) ≡ n
length-take zero s h = refl
length-take (suc n) [] h = absurd (omega arith)
length-take (suc n) (c ∷ s) h = ap suc (length-take n s (omega arith))

pub take-drop : (n : ℕ) (s : Str) → take n s ++ drop n s ≡ s
take-drop zero s = refl
take-drop (suc n) [] = refl
take-drop (suc n) (c ∷ s) = ap (λ r. c ∷ r) (take-drop n s)

pub scan_token-append : (s : Str) → (scan_token s).0 ++ (scan_token s).1 ≡ s
unfolding scan_token
scan_token-append [] = refl
scan_token-append (c ∷ s) = ground (arith, scan_token-append s)

pub take-append : (t u : Str) → take (length t) (t ++ u) ≡ t
take-append [] u = refl
take-append (c ∷ t) u = ap (λ r. c ∷ r) (take-append t u)

pub length-le-append : (t u : Str) → length t ≤ length (t ++ u)
length-le-append [] u = omega arith
length-le-append (c ∷ t) u = omega (arith, length-le-append t u)
