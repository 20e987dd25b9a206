-- ===== src/Path/Reparse.antt =====
-- Reading back a path that path_normalize_lexical wrote.
use mathlib.Core.List.{foldl, reverse}
use hooksqfs.Base.{
  ℕ, ◌^◌, ◌<◌, ◌≡◌, refl, ap, ◌∙◌, ◌≢◌, inl, inr, Bool, true, false, some, List, [], ◌∷◌, ◌++◌,
  append-nil, arith, str_eq, ◌==◌, length, Str, All, All-reverse,
}
use hooksqfs.Path.{path_max, slash, Parts, push_token, is_absolute, normalize}
use hooksqfs.Path.Tokens.{NoSlash, split}
use hooksqfs.Path.Components.{IsNormal, tail-IsNormal, foldl_of_IsNormal}
use hooksqfs.Path.Render.{slashed, join, NonEmpty, glued}
use hooksqfs.Path.Normalize.{
  stack, components, or_dot, spelled, stack-IsNormal, IsNormal-NonEmpty, normalize-fit,
}
use hooksqfs.Path.Size.{length-spelled}

-- The text that the components stand for.
abbrev pub text : Bool → List Str → Str
text true cs = slash ∷ join cs
text false cs = or_dot (join cs)

-- Where a relative path does not begin with a component of one byte before another.
abbrev pub Separable : Bool → List Str → Type 0
Separable true cs = Unit
Separable false [] = Unit
Separable false (t ∷ []) = Unit
Separable false (t ∷ u ∷ ts) = length t ≢ 1

pub spelled-text : (a : Bool) (cs : List Str) → Separable a cs → spelled a cs ≡ text a cs
unfolding glued slashed
spelled-text true cs h = refl
spelled-text false [] h = refl
spelled-text false (t ∷ []) h = ground arith
spelled-text false (t ∷ u ∷ ts) h = ground arith

split-append : (t s : Str) → NoSlash t → split (t ++ slash ∷ s) ≡ t ∷ split s
unfolding split
split-append [] s h = refl
split-append (c ∷ t) s h = ground (arith, split-append t s h.1)

split_of_NoSlash : (t : Str) → NoSlash t → split t ≡ t ∷ []
unfolding split
split_of_NoSlash [] h = refl
split_of_NoSlash (c ∷ t) h = ground (arith, split_of_NoSlash t h.1)

pub split-slashed :
    (t : Str) (ts : List Str) → All NoSlash (t ∷ ts) → split (t ++ slashed ts) ≡ t ∷ ts
unfolding slashed
split-slashed t [] h = rw append-nil (split_of_NoSlash t h.0)
split-slashed t (u ∷ ts) h =
    rw (split-append t (u ++ slashed ts) h.0) (ap (λ r. t ∷ r) (split-slashed u ts h.1))

pub IsNormal-NoSlash : (a : Bool) (ts : Parts) → IsNormal a ts → All NoSlash ts
IsNormal-NoSlash a [] h = tt
IsNormal-NoSlash a (t ∷ ts) (inl h) = (h.0.no_slash, IsNormal-NoSlash a ts h.1)
IsNormal-NoSlash a (t ∷ ts) (inr h) =
    (rw h.0 (ground arith), IsNormal-NoSlash a ts (tail-IsNormal a t ts (inr h)))

stack-join :
    (c : ℕ) (t : Str) (ts : List Str)
    → All NoSlash ((c ∷ t) ∷ ts)
    → ((c == slash) ≡ false)
      × (stack (join ((c ∷ t) ∷ ts)) ≡ foldl (push_token false) [] ((c ∷ t) ∷ ts))
stack-join c t ts h =
    let e : (c == slash) ≡ false = ground arith in (e, rw (e, split-slashed (c ∷ t) ts h))

-- The first token of what is written for components in order.
stack-text :
    (a : Bool) (cs : List Str)
    → All NoSlash cs
    → NonEmpty cs
    → (is_absolute (text a cs) ≡ a) × (stack (text a cs) ≡ foldl (push_token a) [] cs)
unfolding split push_token str_eq
stack-text true [] h n = (refl, refl)
stack-text true (t ∷ ts) h n = (refl, ap (foldl (push_token true) []) (split-slashed t ts h))
stack-text false [] h n = (refl, refl)
stack-text false ([] ∷ ts) h n = absurd (n.0 refl)
stack-text false ((c ∷ t) ∷ ts) h n = stack-join c t ts h

-- The components of the text are the components that it was written for.
pub stack-text_of_IsNormal :
    (a : Bool) (ts : Parts)
    → IsNormal a ts
    → (is_absolute (text a (reverse ts)) ≡ a) × (stack (text a (reverse ts)) ≡ ts)
stack-text_of_IsNormal a ts h =
    let (e, f) =
      stack-text a (reverse ts) (All-reverse NoSlash ts (IsNormal-NoSlash a ts h))
        (All-reverse (λ t. t ≢ []) ts (IsNormal-NonEmpty a ts h)) in
    (e, f ∙ foldl_of_IsNormal a ts h)

-- What a successful call returns, in terms of the components.
pub normalize-text :
    (path : Str) (n : ℕ) {out : Str}
    → n < 2 ^ 32
    → Separable (is_absolute path) (components path)
    → normalize path n ≡ some out
    → (out ≡ text (is_absolute path) (components path))
      × (length out < n)
      × (length path < path_max)
normalize-text path n {out} w sep e =
    ground (arith, normalize-fit path n w, spelled-text (is_absolute path) (components path) sep)

-- A normalized path has the components of the path.
pub components-normalize :
    (path : Str) (n : ℕ) {out : Str}
    → n < 2 ^ 32
    → Separable (is_absolute path) (components path)
    → normalize path n ≡ some out
    → (is_absolute out ≡ is_absolute path) × (components out ≡ components path)
components-normalize path n {out} w sep e =
    let (same, abs) =
      stack-text_of_IsNormal (is_absolute path) (stack path) (stack-IsNormal path) in
    let spells = (normalize-text path n w sep e).0 in rw spells (same, ap reverse abs)

-- Normalizing a normalized path to a buffer of the same size gives it again. A relative path does
-- not begin with a component of one byte before another, and a size is a 32-bit size_t.
pub normalize-idempotent :
    (path : Str) (n : ℕ) {out : Str}
    → n < 2 ^ 32
    → Separable (is_absolute path) (components path)
    → normalize path n ≡ some out
    → normalize out n ≡ some out
normalize-idempotent path n {out} w sep e = ground (
  arith,
  normalize-fit out n w,
  normalize-text path n w sep e,
  length-spelled path,
  spelled-text (is_absolute path) (components path) sep,
  components-normalize path n w sep e,
)
