-- ===== src/Path/Lexical.antt =====
-- The lexical meaning of paths, for the loop of path_normalize_lexical in utils.c.
use mathlib.Core.List.{foldl, foldl-append, reverse, reverse-cons}
use hooksqfs.Base.{
  ◌≡◌, refl, sym, ap, ◌∙◌, ◌≢◌, ◌⊎◌, inl, inr, Bool, true, false, List, [], ◌∷◌, ◌++◌, append-nil,
  append_assoc, arith, str_eq, str_eq_iff, str_eq_sound, Str, All, Bool-cases,
}
use hooksqfs.Path.{dot, dot_dot, Parts, push_token, is_absolute}
use hooksqfs.Path.Tokens.{NoSlash, split, split-NoSlash}
use hooksqfs.Path.Components.{IsName, IsNormal, push_token-IsNormal}
use hooksqfs.Path.Normalize.{components}

-- One simplification of the components of a path, anywhere in it.
pub data Step (absolute : Bool) (xs ys : List Str) : Type 0 where
  drop_empty : (us vs : List Str) → xs ≡ us ++ [] ∷ vs → ys ≡ us ++ vs → Step absolute xs ys
  drop_dot : (us vs : List Str) → xs ≡ us ++ dot ∷ vs → ys ≡ us ++ vs → Step absolute xs ys
  cancel :
      (us vs : List Str) (t : Str)
      → t ≢ []
      → t ≢ dot
      → t ≢ dot_dot
      → xs ≡ us ++ t ∷ dot_dot ∷ vs
      → ys ≡ us ++ vs
      → Step absolute xs ys
  stay_at_root : absolute ≡ true → xs ≡ dot_dot ∷ ys → Step absolute xs ys

-- The same place by any number of simplifications, in both directions.
pub data Same (absolute : Bool) : List Str → List Str → Type 0 where
  step : {xs ys : List Str} → Step absolute xs ys → Same absolute xs ys
  done : {xs : List Str} → Same absolute xs xs
  back : {xs ys : List Str} → Same absolute xs ys → Same absolute ys xs
  joined : {xs ys zs : List Str} → Same absolute xs ys → Same absolute ys zs → Same absolute xs zs

push_token-cancel :
    (a : Bool) (ts : Parts) (t : Str)
    → t ≢ []
    → t ≢ dot
    → t ≢ dot_dot
    → push_token a (push_token a ts t) dot_dot ≡ ts
unfolding push_token
push_token-cancel a ts [] e d dd = absurd (e refl)
push_token-cancel a ts (c ∷ t) e d dd = ground (
  arith,
  str_eq_iff (c ∷ t) dot,
  str_eq_iff (c ∷ t) dot_dot,
  str_eq_iff dot_dot dot,
  str_eq_iff dot_dot dot_dot,
)

push_token-empty : (a : Bool) (ts : Parts) → push_token a ts [] ≡ ts
unfolding push_token
push_token-empty a ts = refl

push_token-dot : (a : Bool) (ts : Parts) → push_token a ts dot ≡ ts
unfolding push_token str_eq
push_token-dot a ts = refl

push_token-root : (a : Bool) → a ≡ true → push_token a [] dot_dot ≡ []
unfolding push_token str_eq
push_token-root true e = refl
push_token-root false e = cc

Step-foldl :
    (a : Bool) (xs ys : List Str)
    → Step a xs ys
    → foldl (push_token a) [] xs ≡ foldl (push_token a) [] ys
Step-foldl a xs ys (drop_empty us vs p q) = rw (
  p,
  q,
  foldl-append (push_token a) [] us ([] ∷ vs),
  foldl-append (push_token a) [] us vs,
  push_token-empty,
)
Step-foldl a xs ys (drop_dot us vs p q) = rw (
  p,
  q,
  foldl-append (push_token a) [] us (dot ∷ vs),
  foldl-append (push_token a) [] us vs,
  push_token-dot,
)
Step-foldl a xs ys (cancel us vs t e d dd p q) = rw (
  p,
  q,
  foldl-append (push_token a) [] us (t ∷ dot_dot ∷ vs),
  foldl-append (push_token a) [] us vs,
  push_token-cancel a (foldl (push_token a) [] us) t e d dd,
)
Step-foldl a xs ys (stay_at_root e p) =
    rw p (ap (λ ts. foldl (push_token a) ts ys) (push_token-root a e))

pub Same-foldl :
    {a : Bool} {xs ys : List Str}
    → Same a xs ys
    → foldl (push_token a) [] xs ≡ foldl (push_token a) [] ys
Same-foldl {a} (step {xs} {ys} s) = Step-foldl a xs ys s
Same-foldl done = refl
Same-foldl (back s) = sym (Same-foldl s)
Same-foldl (joined s t) = Same-foldl s ∙ Same-foldl t

Same-of_eq : {a : Bool} {xs ys : List Str} → xs ≡ ys → Same a xs ys
Same-of_eq {a} {xs} e = rw (← e) done

-- What one round does to a normal stack.
abbrev Round : Bool → Parts → Str → Type 0
Round a ts t =
    (push_token a ts t ≡ t ∷ ts)
    ⊎ (((t ≡ []) × (push_token a ts t ≡ ts))
        ⊎ (((t ≡ dot) × (push_token a ts t ≡ ts))
            ⊎ (((t ≡ dot_dot) × (a ≡ true) × (ts ≡ []) × (push_token a ts t ≡ []))
                ⊎ ((top : Str) × (rest : Parts) × (t ≡ dot_dot)
                    × (ts ≡ top ∷ rest)
                    × IsName top
                    × (push_token a ts t ≡ rest)))))

push_token-Round : (a : Bool) (ts : Parts) (t : Str) → IsNormal a ts → Round a ts t
unfolding push_token
push_token-Round a ts [] h = inr (inl (refl, refl))
push_token-Round a [] (c ∷ t) h = ground (arith, str_eq_iff (c ∷ t) dot, str_eq_iff (c ∷ t) dot_dot)
push_token-Round a (top ∷ ts) (c ∷ t) (inl h) = elim (Bool-cases (str_eq (c ∷ t) dot_dot)) [
  | inl e ↦ inr (inr (inr (inr (top, ts, str_eq_sound (c ∷ t) dot_dot e, refl, h.0, pops e))))
  | inr e ↦ ground (arith, str_eq_iff (c ∷ t) dot)
]
  where
    pops : str_eq (c ∷ t) dot_dot ≡ true → push_token a (top ∷ ts) (c ∷ t) ≡ ts
    pops e =
        ground (arith, str_eq_iff (c ∷ t) dot, str_eq_iff (c ∷ t) dot_dot, str_eq_iff top dot_dot)
push_token-Round a (top ∷ ts) (c ∷ t) (inr h) =
    ground (arith, str_eq_iff (c ∷ t) dot, str_eq_iff (c ∷ t) dot_dot, str_eq_iff top dot_dot)

-- One round of the loop is a simplification, or none.
Same-push_token :
    (a : Bool) (ts : Parts) (t : Str) (rest : List Str)
    → IsNormal a ts
    → Same a (reverse ts ++ t ∷ rest) (reverse (push_token a ts t) ++ rest)
Same-push_token a ts t rest h = elim (push_token-Round a ts t h) [
  | inl e ↦ rw (e, reverse-cons t ts, append_assoc) done
  | inr (inl (e, p)) ↦ rw p (step (drop_empty (reverse ts) rest (rw e) refl))
  | inr (inr (inl (e, p))) ↦ rw p (step (drop_dot (reverse ts) rest (rw e) refl))
  | inr (inr (inr (inl (e, b, n, p)))) ↦ rw p (step (stay_at_root b (rw (n, e))))
  | inr (inr (inr (inr (top, below, e, n, name, p)))) ↦ rw p (
      step (
        cancel (reverse below) rest top name.not_empty name.not_dot name.not_dot_dot
          (rw (n, e, reverse-cons top below, append_assoc)) refl))
]

Same-foldl-stack :
    (a : Bool) (tokens : List Str) (ts : Parts)
    → All NoSlash tokens
    → IsNormal a ts
    → Same a (reverse ts ++ tokens) (reverse (foldl (push_token a) ts tokens))
Same-foldl-stack a [] ts s h = Same-of_eq (append-nil (reverse ts))
Same-foldl-stack a (t ∷ tokens) ts s h =
    joined (Same-push_token a ts t tokens h)
      (Same-foldl-stack a tokens (push_token a ts t) s.1 (push_token-IsNormal a ts t s.0 h))

pub Same-components : (path : Str) → Same (is_absolute path) (split path) (components path)
Same-components path = Same-foldl-stack (is_absolute path) (split path) [] (split-NoSlash path) tt
