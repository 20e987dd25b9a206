-- ===== src/Path/Equals.antt =====
-- utils.c, path_equals_normalized against the lexical meaning of paths.
use hooksqfs.Base.{◌<◌, ◌≡◌, sym, ap, ◌∙◌, ◌↔◌, true, some, arith, str_eq_iff, length, Str}
use hooksqfs.Path.{path_max, is_absolute, normalize, path_equals_normalized}
use hooksqfs.Path.Tokens.{split}
use hooksqfs.Path.Normalize.{stack, components, stack-IsNormal, equals-both_equal}
use hooksqfs.Path.Size.{normalize-path_max}
use hooksqfs.Path.Reparse.{text, Separable, spelled-text, stack-text_of_IsNormal}
use hooksqfs.Path.Lexical.{Same, joined, back, Same-foldl, Same-components}

-- A path that path_normalize_lexical writes with all its separators.
pub record IsPlain (path : Str) : Type 0 where
  pub short : length path < path_max
  pub separable : Separable (is_absolute path) (components path)

plain_text : Str → Str
plain_text path = text (is_absolute path) (components path)

normalize-plain_text :
    {path : Str} → IsPlain path → normalize path path_max ≡ some (plain_text path)
unfolding plain_text
normalize-plain_text {path} p =
    ground (
      arith,
      normalize-path_max path,
      spelled-text (is_absolute path) (components path) p.separable,
    )

plain_text-injective :
    (p q : Str)
    → plain_text p ≡ plain_text q
    → (is_absolute p ≡ is_absolute q) × (stack p ≡ stack q)
unfolding plain_text
plain_text-injective p q e =
    let (a, s) = stack-text_of_IsNormal (is_absolute p) (stack p) (stack-IsNormal p) in
    let (b, t) = stack-text_of_IsNormal (is_absolute q) (stack q) (stack-IsNormal q) in
    (sym a ∙ ap is_absolute e ∙ b, sym s ∙ ap stack e ∙ t)

equals-plain_text :
    {p q : Str}
    → IsPlain p
    → IsPlain q
    → (path_equals_normalized (some p) (some q) ≡ true) ↔ (plain_text p ≡ plain_text q)
equals-plain_text {p} {q} hp hq =
    rw (equals-both_equal p q, normalize-plain_text hp, normalize-plain_text hq)
      (str_eq_iff (plain_text p) (plain_text q))

Same-of_stack :
    (p q : Str)
    → is_absolute p ≡ is_absolute q
    → stack p ≡ stack q
    → Same (is_absolute p) (split p) (split q)
Same-of_stack p q e s = joined (Same-components p) (rw s (rw e (back (Same-components q))))

plain_text_of_Same :
    (p q : Str)
    → is_absolute p ≡ is_absolute q
    → Same (is_absolute p) (split p) (split q)
    → plain_text p ≡ plain_text q
unfolding plain_text
plain_text_of_Same p q e s = rw (Same-foldl s, e)

-- path_equals_normalized accepts two paths exactly when both are absolute or both are relative, and
-- simplifications of "", ".", "x/.." and of ".." at the root lead from one to the other. The paths
-- are shorter than PATH_MAX, and no relative one begins with a component of one byte before another.
pub equals-Same :
    {p q : Str}
    → IsPlain p
    → IsPlain q
    → (path_equals_normalized (some p) (some q) ≡ true)
      ↔ ((is_absolute p ≡ is_absolute q) × Same (is_absolute p) (split p) (split q))
equals-Same {p} {q} hp hq =
    let both = equals-plain_text hp hq in
    (
      (λ h. let (e, s) = plain_text-injective p q (both.0 h) in (e, Same-of_stack p q e s)),
      (λ h. both.1 (plain_text_of_Same p q h.0 h.1)),
    )
