-- ===== src/Path/Prefix.antt =====
-- utils.c, the comparison of texts in path_relative_to_root.
use hooksqfs.Base.{
  ℕ, zero, suc, ◌+◌, ◌<◌, ◌≡◌, refl, ap, ◌∙◌, ◌⊎◌, inl, inr, true, Option, some, [], ◌∷◌, ◌++◌,
  append-nil, arith, str_eq_sound, str_eq_refl, length, length-append, take, drop, Str, Bool-cases,
  if◌then◌else◌,
}
use hooksqfs.Path.{slash, char_at, strn_eq, strip_slashes, write_relative, copy_out, relative_of}

take-append : (r w : Str) → take (length r) (r ++ w) ≡ r
take-append [] w = refl
take-append (c ∷ r) w = ap (λ s. c ∷ s) (take-append r w)

take-length : (r : Str) → take (length r) r ≡ r
take-length [] = refl
take-length (c ∷ r) = ap (λ s. c ∷ s) (take-length r)

drop-append : (n c : ℕ) (r w : Str) → n ≡ length r + 1 → drop n (r ++ c ∷ w) ≡ w
drop-append zero c r w e = absurd (omega arith)
drop-append (suc zero) c [] w e = refl
drop-append (suc (suc n)) c [] w e = absurd (omega arith)
drop-append (suc n) c (d ∷ r) w e = drop-append n c r w (omega arith)

char_at-append : (r w : Str) → char_at (r ++ w) (length r) ≡ char_at w 0
char_at-append [] w = refl
char_at-append (c ∷ r) w = char_at-append r w

take-drop : (n : ℕ) (p : Str) → p ≡ take n p ++ drop n p
take-drop zero p = refl
take-drop (suc n) [] = refl
take-drop (suc n) (c ∷ p) = ap (λ s. c ∷ s) (take-drop n p)

-- The comparison succeeds exactly on an extension of the root.
strn_eq-append : (r w : Str) → strn_eq (r ++ w) r (length r) ≡ true
strn_eq-append r w = rw (take-append r w, take-length r) (str_eq_refl r)

strn_eq-prefix : (p r : Str) → strn_eq p r (length r) ≡ true → p ≡ r ++ drop (length r) p
strn_eq-prefix p r h =
    let e : take (length r) p ≡ r =
      str_eq_sound (take (length r) p) (take (length r) r) h ∙ take-length r in
    take-drop (length r) p ∙ ap (λ s. s ++ drop (length r) p) e

-- A root with nothing to strip that is not "/".
pub record IsRoot (r : Str) : Type 0 where
  pub long : 1 < length r
  pub stripped : strip_slashes r (length r) ≡ length r

pub relative_of_self :
    {r : Str} (out : Option Str) (size : ℕ)
    → IsRoot r
    → relative_of r r out size ≡ some (if write_relative out size then some [] else out)
unfolding relative_of
relative_of_self {r} out size h =
    ground (arith, h.stripped, h.long, strn_eq-append r [], append-nil r)

pub relative_of-below :
    {r : Str} (w : Str) (out : Option Str) (size : ℕ)
    → IsRoot r
    → relative_of r (r ++ slash ∷ w) out size ≡ copy_out out size w
unfolding relative_of
relative_of-below {r} w out size h = ground (
  arith,
  h.stripped,
  h.long,
  strn_eq-append r (slash ∷ w),
  length-append r (slash ∷ w),
  char_at-append r (slash ∷ w),
  drop-append (length r + 1) slash r w refl,
)

-- What follows an accepted root.
pub record Below (r p : Str) : Type 0 where
  pub after : Str
  pub extends : p ≡ r ++ after
  pub at_slash : (after ≡ []) ⊎ ((w : Str) × (after ≡ slash ∷ w))

drop-length : (n : ℕ) (p : Str) → length p ≡ n → drop n p ≡ []
drop-length zero [] e = refl
drop-length zero (c ∷ p) e = absurd (omega arith)
drop-length (suc n) [] e = refl
drop-length (suc n) (c ∷ p) e = drop-length n p (omega arith)

drop_at_slash : (n : ℕ) (p : Str) → char_at p n ≡ slash → (w : Str) × (drop n p ≡ slash ∷ w)
drop_at_slash zero [] e = absurd (omega arith)
drop_at_slash zero (c ∷ p) e = (p, ap (λ d. d ∷ p) e)
drop_at_slash (suc n) [] e = absurd (omega arith)
drop_at_slash (suc n) (c ∷ p) e = drop_at_slash n p e

relative_of-accepted :
    {r : Str} (p : Str) (out : Option Str) (size : ℕ) (got : Option Str)
    → IsRoot r
    → relative_of r p out size ≡ some got
    → (strn_eq p r (length r) ≡ true) × ((length p ≡ length r) ⊎ (char_at p (length r) ≡ slash))
unfolding relative_of
relative_of-accepted {r} p out size got h e = elim (Bool-cases (strn_eq p r (length r))) [
  | inl same ↦ (same, ground (arith, h.stripped, h.long))
  | inr differ ↦ absurd (ground (arith, h.stripped, h.long))
]

pub relative_of-Below :
    {r : Str} (p : Str) (out : Option Str) (size : ℕ) {got : Option Str}
    → IsRoot r
    → relative_of r p out size ≡ some got
    → Below r p
relative_of-Below {r} p out size {got} h e =
    let (same, ends) = relative_of-accepted p out size got h e in
    record {
      after = drop (length r) p;
      extends = strn_eq-prefix p r same;
      at_slash = elim ends [
        | inl len ↦ inl (drop-length (length r) p len)
        | inr at ↦ inr (drop_at_slash (length r) p at)
      ];
    }

-- The root "/" accepts every text that begins with a slash.
pub relative_of-slash :
    (p : Str) (out : Option Str) (size : ℕ)
    → relative_of (slash ∷ []) (slash ∷ p) out size ≡ copy_out out size p
unfolding relative_of strip_slashes
relative_of-slash p out size = refl
