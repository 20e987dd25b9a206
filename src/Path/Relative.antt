-- ===== src/Path/Relative.antt =====
-- utils.c, path_relative_to_root on absolute paths.
use hooksqfs.Base.{
  ℕ, zero, suc, ◌<◌, ◌≡◌, refl, sym, ap, ◌∙◌, ◌≢◌, inl, inr, true, Option, none, some, List, [],
  ◌∷◌, ◌++◌, append-nil, arith, length, Str, All, All-reverse, leb, if◌then◌else◌, ◌>>=◌,
}
use hooksqfs.Path.{
  path_max, slash, is_absolute, write_relative, copy_out, relative_of, normalize,
  path_relative_to_root,
}
use hooksqfs.Path.Tokens.{NoSlash, split}
use hooksqfs.Path.Render.{slashed, join, NonEmpty}
use hooksqfs.Path.Normalize.{stack, components, stack-IsNormal, components-NonEmpty}
use hooksqfs.Path.Size.{normalize-path_max}
use hooksqfs.Path.Reparse.{split-slashed, IsNormal-NoSlash}
use hooksqfs.Path.Prefix.{
  Below, relative_of_self, relative_of-below, relative_of-Below, relative_of-slash,
}
use hooksqfs.Path.Roots.{slashed-IsRoot, slashed-append, split-concat}

relative-normalize :
    (root path : Str) (out : Option Str) (size : ℕ)
    → path_relative_to_root (some root) (some path) out size ≡ (
        normalize root path_max >>= λ norm_root.
        normalize path path_max >>= λ norm_path. relative_of norm_root norm_path out size)
unfolding path_relative_to_root
relative-normalize root path out size = refl

-- An absolute path that fits in PATH_MAX.
pub record IsAbsolute (path : Str) : Type 0 where
  pub short : length path < path_max
  pub rooted : is_absolute path ≡ true

normalize_of_IsAbsolute :
    {path : Str} → IsAbsolute path → normalize path path_max ≡ some (slash ∷ join (components path))
normalize_of_IsAbsolute {path} h = ground (arith, normalize-path_max path, h.short, h.rooted)

relative-relative_of :
    {root path : Str} (out : Option Str) (size : ℕ)
    → IsAbsolute root
    → IsAbsolute path
    → path_relative_to_root (some root) (some path) out size
      ≡ relative_of (slash ∷ join (components root)) (slash ∷ join (components path)) out size
relative-relative_of {root} {path} out size hr hp =
    rw (relative-normalize, normalize_of_IsAbsolute hr, normalize_of_IsAbsolute hp)

components-NoSlash : (path : Str) → All NoSlash (components path)
components-NoSlash path =
    All-reverse NoSlash (stack path)
      (IsNormal-NoSlash (is_absolute path) (stack path) (stack-IsNormal path))

copy_out-nil :
    (out : Option Str) (size : ℕ)
    → copy_out out size [] ≡ some (if write_relative out size then some [] else out)
copy_out-nil none size = refl
copy_out-nil (some out) zero = refl
copy_out-nil (some out) (suc size) = ground arith

-- What is below a root of one or more components.
relative_of-slashed :
    (t : Str) (rs cs : List Str) (out : Option Str) (size : ℕ)
    → All NoSlash (t ∷ rs)
    → NonEmpty (t ∷ rs)
    → relative_of (slash ∷ join (t ∷ rs)) (slash ∷ join (t ∷ rs ++ cs)) out size
      ≡ copy_out out size (join cs)
unfolding slashed
relative_of-slashed t rs [] out size h n =
    rw append-nil
      (relative_of_self out size (slashed-IsRoot t rs h n) ∙ sym (copy_out-nil out size))
relative_of-slashed t rs (c ∷ cs) out size h n =
    ap (λ p. relative_of (slashed (t ∷ rs)) p out size) (slashed-append (t ∷ rs) (c ∷ cs))
    ∙ relative_of-below (c ++ slashed cs) out size (slashed-IsRoot t rs h n)

-- The pieces of an accepted path begin with those of the root.
Below-split :
    (t : Str) (rs cs : List Str)
    → All NoSlash (t ∷ rs)
    → Below (slashed (t ∷ rs)) (slash ∷ join cs)
    → (more : List Str) × (split (slash ∷ join cs) ≡ ([] ∷ t ∷ rs) ++ more)
Below-split t rs cs h b = elim b.at_slash [
  | inl e ↦ ([], rw (b.extends, e, append-nil, append-nil) (split-slashed [] (t ∷ rs) (tt, h)))
  | inr (w, e) ↦ (
    split w,
    rw (b.extends, e, split-concat (slashed (t ∷ rs)) w)
        (ap (λ x. x ++ split w) (split-slashed [] (t ∷ rs) (tt, h))),
  )
]

split-join :
    (t : Str) (cs rs more : List Str)
    → All NoSlash cs
    → t ≢ []
    → split (slash ∷ join cs) ≡ ([] ∷ t ∷ rs) ++ more
    → cs ≡ (t ∷ rs) ++ more
unfolding slashed
split-join t [] rs more h n e = absurd (n (unfold split in cc))
split-join t (c ∷ cs) rs more h n e = let pieces = split-slashed [] (c ∷ cs) (tt, h) in cc

relative_of-inside :
    (rs cs : List Str) (out : Option Str) (size : ℕ) (got : Option Str)
    → All NoSlash rs
    → NonEmpty rs
    → All NoSlash cs
    → relative_of (slash ∷ join rs) (slash ∷ join cs) out size ≡ some got
    → (ds : List Str) × (cs ≡ rs ++ ds)
unfolding slashed
relative_of-inside [] cs out size got h n k e = (cs, refl)
relative_of-inside (t ∷ rs) cs out size got h n k e =
    let below = relative_of-Below (slash ∷ join cs) out size (slashed-IsRoot t rs h n) e in
    let (more, pieces) = Below-split t rs cs h below in (more, split-join t cs rs more k n.0 pieces)

relative_of-join :
    (rs cs : List Str) (out : Option Str) (size : ℕ)
    → All NoSlash rs
    → NonEmpty rs
    → relative_of (slash ∷ join rs) (slash ∷ join (rs ++ cs)) out size ≡ copy_out out size (join cs)
relative_of-join [] cs out size h n = relative_of-slash (join cs) out size
relative_of-join (t ∷ rs) cs out size h n = relative_of-slashed t rs cs out size h n

copy_out-some :
    (buffer : Str) (size : ℕ) (s : Str)
    → 0 < size
    → copy_out (some buffer) size s ≡ (if leb size (length s) then none else some (some s))
copy_out-some buffer size s h = ground arith

-- For absolute paths shorter than PATH_MAX and a buffer of one byte or more: where the components of
-- the path are those of the root with more, possibly none, behind them, the answer is yes and the buffer gets those joined by slashes, or the
-- answer is no because they do not fit the buffer.
pub relative-append :
    {root path : Str} (cs : List Str) (buffer : Str) (size : ℕ)
    → IsAbsolute root
    → IsAbsolute path
    → 0 < size
    → components path ≡ components root ++ cs
    → path_relative_to_root (some root) (some path) (some buffer) size
      ≡ (if leb size (length (join cs)) then none else some (some (join cs)))
relative-append {root} {path} cs buffer size hr hp positive e =
    relative-relative_of (some buffer) size hr hp
    ∙ ap (λ ps. relative_of (slash ∷ join (components root)) (slash ∷ join ps) (some buffer) size) e
    ∙ relative_of-join (components root) cs (some buffer) size (components-NoSlash root)
        (components-NonEmpty root)
    ∙ copy_out-some buffer size (join cs) positive

-- For absolute paths shorter than PATH_MAX: a path is accepted only if its components are those of
-- the root with more, possibly none, behind them. So a sibling whose name only begins like that of
-- the root is refused, and so is a path that leaves the root by "..".
pub relative-inside :
    {root path : Str} (out : Option Str) (size : ℕ) {got : Option Str}
    → IsAbsolute root
    → IsAbsolute path
    → path_relative_to_root (some root) (some path) out size ≡ some got
    → (cs : List Str) × (components path ≡ components root ++ cs)
relative-inside {root} {path} out size {got} hr hp e =
    relative_of-inside (components root) (components path) out size got (components-NoSlash root)
      (components-NonEmpty root) (components-NoSlash path)
      (sym (relative-relative_of out size hr hp) ∙ e)
