-- ===== src/Path/Size.antt =====
-- utils.c, the length of what path_normalize_lexical writes, and the buffer of PATH_MAX bytes.
use Prim.Native.Nat.{max}
use mathlib.Core.List.{reverse, reverse-cons}
use hooksqfs.Base.{
  ℕ, ◌+◌, ◌-◌, ◌≤◌, ◌≡◌, refl, ap, true, none, some, List, [], ◌∷◌, arith, leb, ◌==◌, if◌then◌else◌,
  length, length-append, Str,
}
use hooksqfs.Path.{path_max, slash, push_token, is_absolute, normalize}
use hooksqfs.Path.Tokens.{split}
use hooksqfs.Path.Components.{total, total-append, total-foldl, total-split}
use hooksqfs.Path.Render.{slashed, join, glued}
use hooksqfs.Path.Normalize.{stack, components, or_dot, spelled, normalize-fit}

length-slashed : (ts : List Str) → length (slashed ts) ≡ total ts
unfolding slashed total
length-slashed [] = refl
length-slashed (t ∷ ts) = omega (arith, length-append t (slashed ts), length-slashed ts)

length-join : (ts : List Str) → length (join ts) ≡ total ts - 1
unfolding total
length-join [] = refl
length-join (t ∷ ts) = omega (arith, length-append t (slashed ts), length-slashed ts)

length-glued : (ts : List Str) → length (glued ts) ≤ total ts - 1
unfolding total glued
length-glued [] = omega arith
length-glued (t ∷ ts) = ground (
  arith,
  length-append t (slashed ts),
  length-append t (join ts),
  length-slashed ts,
  length-join ts,
)

total-reverse : (ts : List Str) → total (reverse ts) ≡ total ts
unfolding total
total-reverse [] = refl
total-reverse (t ∷ ts) =
    omega
      (arith, ap total (reverse-cons t ts), total-append (reverse ts) (t ∷ []), total-reverse ts)

total-components : (path : Str) → total (components path) ≤ length path + 1
unfolding total
total-components path = omega (
  arith,
  total-reverse (stack path),
  total-foldl (is_absolute path) (split path) [],
  total-split path,
)

-- The leading slash of an absolute path is not part of a component.
total-components_absolute :
    (c : ℕ) (s : Str) → (c == slash) ≡ true → total (components (c ∷ s)) ≤ length s + 1
unfolding split push_token total
total-components_absolute c s e =
    rw (total-reverse (stack (c ∷ s)), e)
      (omega (arith, total-foldl true (split s) [], total-split s))

length-or_dot : (s : Str) → length (or_dot s) ≤ max 1 (length s)
length-or_dot [] = omega arith
length-or_dot (c ∷ s) = omega arith

-- The result is no longer than the path, but for "." from the empty path.
pub length-spelled :
    (path : Str) → length (spelled (is_absolute path) (components path)) ≤ max 1 (length path)
length-spelled [] = omega (
  arith,
  length-or_dot (glued (components [])),
  length-glued (components []),
  total-components [],
)
length-spelled (c ∷ s) = ground (
  arith,
  total-components_absolute c s,
  total-components (c ∷ s),
  length-or_dot (glued (components (c ∷ s))),
  length-glued (components (c ∷ s)),
  length-join (components (c ∷ s)),
)

-- With a buffer of PATH_MAX bytes a path of PATH_MAX bytes or more is refused, and every other one
-- gives its spelled components.
pub normalize-path_max :
    (path : Str)
    → normalize path path_max ≡ (
        if leb path_max (length path)
        then none
        else some (spelled (is_absolute path) (components path)))
normalize-path_max path = ground (arith, normalize-fit path path_max, length-spelled path)
