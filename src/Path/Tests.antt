-- ===== src/Path/Tests.antt =====
-- The path functions at concrete paths.
use mathlib.Core.List.{foldl}
use hooksqfs.Base.{
  ◌/◌, ◌≤◌, ◌≡◌, ◌↔◌, refl, List, [], ◌∷◌, ◌++◌, none, some, true, false, arith, length, leb,
  if◌then◌else◌, Str, codes, str_eq,
}
use hooksqfs.Path.{
  path_max, push_token, split_loop, is_absolute, normalize, path_normalize_lexical,
  path_equals_normalized, path_relative_to_root,
}
use hooksqfs.Path.Tokens.{split, split_loop-split}
use hooksqfs.Path.Components.{IsNormal, parts-fit}
use hooksqfs.Path.Render.{fit, slashed}
use hooksqfs.Path.Normalize.{stack, components, spelled, normalize-fit, stack-IsNormal}
use hooksqfs.Path.Size.{normalize-path_max}
use hooksqfs.Path.Reparse.{normalize-idempotent}
use hooksqfs.Path.Lexical.{Same}
use hooksqfs.Path.Equals.{equals-Same}
use hooksqfs.Path.Glued.{IsRelative, equals-glued}
use hooksqfs.Path.Relative.{IsAbsolute, relative-inside, relative-append}

normalizes_absolute :
    path_normalize_lexical (some (codes "//a/./b/../../..//c/")) (some []) path_max
    ≡ some (codes "/c")
unfolding path_normalize_lexical
normalizes_absolute = refl

normalizes_relative :
    path_normalize_lexical (some (codes "./ab/.././../x")) (some []) path_max ≡ some (codes "../x")
unfolding path_normalize_lexical
normalizes_relative = refl

normalizes_short :
    path_normalize_lexical (some (codes "a/b")) (some []) path_max ≡ some (codes "ab")
unfolding path_normalize_lexical
normalizes_short = refl

too_small : path_normalize_lexical (some (codes "/abc")) (some []) 4 ≡ none
unfolding path_normalize_lexical
too_small = refl

sibling :
    path_relative_to_root (some (codes "/hook/some")) (some (codes "/hook/some2/f")) (some []) 4096
    ≡ none
unfolding path_relative_to_root
sibling = refl

below :
    path_relative_to_root
      (some (codes "/hook/some/"))
      (some (codes "/hook/some/./d/f"))
      (some [])
      4096
    ≡ some (some (codes "d/f"))
unfolding path_relative_to_root
below = refl

everything : path_relative_to_root (some (codes "/..")) (some (codes "/d")) none 0 ≡ some none
unfolding path_relative_to_root
everything = refl

same_file : path_equals_normalized (some (codes "/a/b")) (some (codes "/a//c/../b/")) ≡ true
unfolding path_equals_normalized
same_file = refl

abbrev root : Str
root = codes "/hook//x/.."

abbrev inner : Str
inner = codes "/hook/d/./f"

root-IsAbsolute : IsAbsolute root
root-IsAbsolute = record { short = omega arith; rooted = refl }

inner-IsAbsolute : IsAbsolute inner
inner-IsAbsolute = record { short = omega arith; rooted = refl }

relative-inside_example : (cs : List Str) × (components inner ≡ components root ++ cs)
unfolding path_relative_to_root
relative-inside_example =
    relative-inside (some []) 4096 {got = some (codes "d/f")} root-IsAbsolute inner-IsAbsolute refl

relative-append_example :
    path_relative_to_root (some root) (some inner) (some []) 3
    ≡ (if leb 3 (length (codes "d/f")) then none else some (some (codes "d/f")))
unfolding split push_token str_eq slashed
relative-append_example =
    relative-append (codes "d" ∷ codes "f" ∷ []) [] 3 root-IsAbsolute inner-IsAbsolute (omega arith)
      refl

abbrev plain : Str
plain = codes "/a/b"

abbrev roundabout : Str
roundabout = codes "/a//c/../b/"

equals-Same_example : (path_equals_normalized (some plain) (some roundabout) ≡ true) ↔ (
    (is_absolute plain ≡ is_absolute roundabout)
    × Same (is_absolute plain) (split plain) (split roundabout))
equals-Same_example =
    equals-Same {p = plain} {q = roundabout} (record { short = omega arith; separable = tt })
      (record { short = omega arith; separable = tt })

normalize-fit_example :
    normalize (codes "./ab/../xyz") 3
    ≡ (if leb path_max 11 then none else fit 3 (spelled false (components (codes "./ab/../xyz"))))
normalize-fit_example = normalize-fit (codes "./ab/../xyz") 3 (omega arith)

normalize-path_max_example :
    normalize (codes "../x") path_max
    ≡ (if leb path_max 4 then none else some (spelled false (components (codes "../x"))))
normalize-path_max_example = normalize-path_max (codes "../x")

normalize-idempotent_example : normalize (codes "/b") 8 ≡ some (codes "/b")
unfolding path_normalize_lexical
normalize-idempotent_example =
    normalize-idempotent (codes "/a/../b/") 8 {out = codes "/b"} (omega arith) tt refl

stack-IsNormal_example : IsNormal false (stack (codes "../a/b/.."))
stack-IsNormal_example = stack-IsNormal (codes "../a/b/..")

parts-fit_example : length (foldl (push_token false) [] (codes "a" ∷ codes "b" ∷ [])) ≤ path_max / 2
unfolding split
parts-fit_example =
    parts-fit false (codes "a/b/c") (codes "a" ∷ codes "b" ∷ []) (codes "c" ∷ []) (omega arith) refl

split_loop-split_example :
    split_loop 6 false [] (some (codes "a/.."))
    ≡ some (foldl (push_token false) [] (split (codes "a/..")))
split_loop-split_example = split_loop-split 6 false [] (codes "a/..") (omega arith)

one_byte : IsRelative (codes "a/b") (codes "a" ∷ codes "b" ∷ [])
unfolding split push_token str_eq
one_byte = record { short = omega arith; relative = refl; reads = refl }

two_bytes : IsRelative (codes "ab") (codes "ab" ∷ [])
unfolding split push_token str_eq
two_bytes = record { short = omega arith; relative = refl; reads = refl }

equals-glued_example : path_equals_normalized (some (codes "a/b")) (some (codes "ab")) ≡ true
equals-glued_example = equals-glued one_byte two_bytes
