-- ===== src/Path/Normalize.antt =====
-- utils.c, path_normalize_lexical as a whole.
use mathlib.Core.List.{foldl, reverse}
use hooksqfs.Base.{
  ℕ, ◌+◌, ◌^◌, ◌≤◌, ◌<◌, ◌≡◌, refl, ◌≢◌, Bool, true, false, none, some, List, [], ◌∷◌, arith, leb,
  if◌then◌else◌, length, Str, All-reverse,
}
use hooksqfs.Path.{
  path_max, slash, dot, Parts, push_token, is_absolute, finish, write_parts, normalize,
  path_normalize_lexical, path_equals_normalized, both_equal,
}
use hooksqfs.Path.Tokens.{split, split-NoSlash, split_loop-split}
use hooksqfs.Path.Components.{IsNormal, tail-IsNormal, foldl-IsNormal}
use hooksqfs.Path.Render.{
  fit, join, NonEmpty, append_str-fit, rebuild-absolute, rebuild-relative, glued,
}

-- The stack when the loop ends, and the components in their order.
abbrev pub stack : Str → Parts
stack path = foldl (push_token (is_absolute path)) [] (split path)

abbrev pub components : Str → List Str
components path = reverse (stack path)

abbrev pub or_dot : Str → Str
or_dot [] = dot
or_dot (c ∷ s) = c ∷ s

-- What is written, as a function of the components.
abbrev pub spelled : Bool → List Str → Str
spelled true cs = slash ∷ join cs
spelled false cs = or_dot (glued cs)

-- The parts of any path are in normal form: each is a name without a slash and not empty, "." or
-- "..", but that the parts of a relative path may begin with any number of "..".
pub stack-IsNormal : (path : Str) → IsNormal (is_absolute path) (stack path)
stack-IsNormal path = foldl-IsNormal (is_absolute path) (split path) [] (split-NoSlash path) tt

pub IsNormal-NonEmpty : (a : Bool) (ts : Parts) → IsNormal a ts → NonEmpty ts
IsNormal-NonEmpty a [] h = tt
IsNormal-NonEmpty a (t ∷ ts) h = (ground arith, IsNormal-NonEmpty a ts (tail-IsNormal a t ts h))

pub components-NonEmpty : (path : Str) → NonEmpty (components path)
components-NonEmpty path =
    All-reverse (λ t. t ≢ []) (stack path)
      (IsNormal-NonEmpty (is_absolute path) (stack path) (stack-IsNormal path))

finish-or_dot :
    (n : ℕ) (s : Str) → 0 < n → n < 2 ^ 32 → length s < n → finish false n s ≡ fit n (or_dot s)
finish-or_dot n [] p w l = append_str-fit n [] dot p w
finish-or_dot n (c ∷ s) p w l = ground arith

length-or_dot : (s : Str) → length s ≤ length (or_dot s)
length-or_dot [] = omega arith
length-or_dot (c ∷ s) = omega arith

write_parts-fit :
    (a : Bool) (n : ℕ) (cs : List Str)
    → 0 < n
    → n < 2 ^ 32
    → NonEmpty cs
    → write_parts a n cs ≡ fit n (spelled a cs)
unfolding write_parts
write_parts-fit true n cs p w h =
    ground (arith, append_str-fit n [] (slash ∷ []) p w, rebuild-absolute n cs)
write_parts-fit false n cs p w h =
    ground
      (arith, rebuild-relative n cs p w h, finish-or_dot n (glued cs) p w, length-or_dot (glued cs))

-- The result for every path and every size of the buffer that a 32-bit size_t holds: the spelled
-- components where the path is shorter than PATH_MAX and the result fits the buffer with its NUL, and
-- otherwise a refusal.
pub normalize-fit :
    (path : Str) (n : ℕ)
    → n < 2 ^ 32
    → normalize path n ≡ (
        if leb path_max (length path)
        then none
        else fit n (spelled (is_absolute path) (components path)))
unfolding normalize
normalize-fit path n w = ground (
  arith,
  split_loop-split (length path + 2) (is_absolute path) [] path,
  write_parts-fit (is_absolute path) n (components path),
  components-NonEmpty path,
)

pub equals-both_equal :
    (a b : Str)
    → path_equals_normalized (some a) (some b)
      ≡ both_equal (normalize a path_max) (normalize b path_max)
unfolding path_equals_normalized
equals-both_equal a b = refl

pub lexical-normalize :
    (path out : Str) (n : ℕ) → path_normalize_lexical (some path) (some out) n ≡ normalize path n
unfolding path_normalize_lexical
lexical-normalize path out n = refl
