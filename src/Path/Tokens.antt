-- ===== src/Path/Tokens.antt =====
-- utils.c, the strsep loop of path_normalize_lexical and the tokens of a text.
use mathlib.Core.List.{foldl}
use hooksqfs.Base.{
  ℕ, zero, suc, ◌+◌, ◌<◌, ◌≡◌, refl, ◌≢◌, inl, inr, Bool, Option, none, some, List, [], ◌∷◌, arith,
  Option-cases, ◌==◌, if◌then◌else◌, length, Str, All,
}
use hooksqfs.Path.{slash, strsep, Parts, push_token, split_loop}

abbrev pub NoSlash : Str → Type 0
NoSlash = All (λ c. c ≢ slash)

abbrev pub cons_head : ℕ → List Str → List Str
cons_head c [] = (c ∷ []) ∷ []
cons_head c (token ∷ tokens) = (c ∷ token) ∷ tokens

-- The pieces between the slashes.
unfoldable pub split : Str → List Str
split [] = [] ∷ []
split (c ∷ s) = if c == slash then [] ∷ split s else cons_head c (split s)

abbrev split_rest : Option Str → List Str
split_rest none = []
split_rest (some s) = split s

split-strsep : (s : Str) → split s ≡ (strsep s).0 ∷ split_rest (strsep s).1
unfolding split strsep
split-strsep [] = refl
split-strsep (c ∷ s) = ground (arith, split-strsep s)

length-strsep : (s r : Str) → (strsep s).1 ≡ some r → length r < length s
unfolding strsep
length-strsep [] r e = cc
length-strsep (c ∷ s) r e = ground (arith, length-strsep s r)

-- The strsep loop ends with more fuel than the bytes of the text and one, and gives the fold of its
-- body over the pieces between the slashes.
pub split_loop-split :
    (fuel : ℕ) (absolute : Bool) (parts : Parts) (s : Str)
    → length s + 1 < fuel
    → split_loop fuel absolute parts (some s) ≡ some (foldl (push_token absolute) parts (split s))
unfolding split_loop
split_loop-split zero absolute parts s h = elim h [ ]
split_loop-split (suc zero) absolute parts s h = absurd (omega arith)
split_loop-split (suc (suc fuel)) absolute parts s h = elim (Option-cases (strsep s).1) [
  | inl e ↦ rw (split-strsep s, split_loop, e)
  | inr (r, e) ↦
      rw (split-strsep s, split_loop, e)
        (split_loop-split (suc fuel) absolute (push_token absolute parts (strsep s).0) r
          (omega (arith, length-strsep s r e)))
]

cons_head-NoSlash :
    (c : ℕ) (ts : List Str) → c ≢ slash → All NoSlash ts → All NoSlash (cons_head c ts)
cons_head-NoSlash c [] n h = ((n, tt), tt)
cons_head-NoSlash c (t ∷ ts) n h = ((n, h.0), h.1)

pub split-NoSlash : (s : Str) → All NoSlash (split s)
unfolding split
split-NoSlash [] = (tt, tt)
split-NoSlash (c ∷ s) = ground (arith, split-NoSlash s, cons_head-NoSlash c (split s))
