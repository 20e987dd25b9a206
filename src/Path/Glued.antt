-- ===== src/Path/Glued.antt =====
-- utils.c, path_equals_normalized on relative paths whose first component is one byte.
use hooksqfs.Base.{
  ℕ, ◌<◌, ◌≡◌, false, true, some, List, [], ◌∷◌, ◌++◌, arith, str_eq_refl, length, Str,
}
use hooksqfs.Path.{path_max, is_absolute, normalize, path_equals_normalized}
use hooksqfs.Path.Render.{slashed, glued}
use hooksqfs.Path.Normalize.{components, equals-both_equal}
use hooksqfs.Path.Size.{normalize-path_max}

-- A relative path that fits in PATH_MAX, with its components.
pub record IsRelative (path : Str) (cs : List Str) : Type 0 where
  pub short : length path < path_max
  pub relative : is_absolute path ≡ false
  pub reads : components path ≡ cs

normalize-glued :
    {path : Str} {c : ℕ} {t : Str} {ts : List Str}
    → IsRelative path ((c ∷ []) ∷ t ∷ ts)
    → normalize path path_max ≡ some (c ∷ (t ++ slashed ts))
unfolding glued
normalize-glued {path} h = ground (arith, normalize-path_max path, h.short, h.relative, h.reads)

normalize-long :
    {path : Str} {c d : ℕ} {t : Str} {ts : List Str}
    → IsRelative path ((c ∷ d ∷ t) ∷ ts)
    → normalize path path_max ≡ some (c ∷ d ∷ (t ++ slashed ts))
unfolding glued
normalize-long {path} h = ground (arith, normalize-path_max path, h.short, h.relative, h.reads)

-- path_equals_normalized takes two relative paths shorter than PATH_MAX for the same when one begins
-- with a component of one byte, c, before the component dt, the other begins with cdt, and the
-- same components follow, which are any: d is a byte and t a text.
pub equals-glued :
    {p q : Str} {c d : ℕ} {t : Str} {ts : List Str}
    → IsRelative p ((c ∷ []) ∷ (d ∷ t) ∷ ts)
    → IsRelative q ((c ∷ d ∷ t) ∷ ts)
    → path_equals_normalized (some p) (some q) ≡ true
equals-glued {p} {q} {c} {d} {t} {ts} hp hq =
    rw (equals-both_equal p q, normalize-glued hp, normalize-long hq)
      (str_eq_refl (c ∷ d ∷ (t ++ slashed ts)))
