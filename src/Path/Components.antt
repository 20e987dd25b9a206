-- ===== src/Path/Components.antt =====
-- utils.c, the array `parts` that the loop of path_normalize_lexical fills.
use mathlib.Core.List.{foldl, foldl-append, reverse, reverse-cons}
use hooksqfs.Base.{
  ℕ, suc, ◌+◌, ◌*◌, ◌/◌, ◌≤◌, ◌<◌, ◌≡◌, refl, ap, ◌≢◌, ◌⊎◌, inl, inr, Bool, true, false, List, [],
  ◌∷◌, ◌++◌, arith, length, Str, str_eq_iff, All,
}
use hooksqfs.Path.{path_max, dot, dot_dot, Parts, push_token}
use hooksqfs.Path.Tokens.{NoSlash, split, split-NoSlash, cons_head}

-- A component that names a directory entry.
pub record IsName (t : Str) : Type 0 where
  pub not_empty : t ≢ []
  pub not_dot : t ≢ dot
  pub not_dot_dot : t ≢ dot_dot
  pub no_slash : NoSlash t

abbrev pub AllDots : Parts → Type 0
AllDots = All (λ t. t ≡ dot_dot)

-- Names on top of "..", and no ".." under the root.
abbrev pub IsNormal : Bool → Parts → Type 0
IsNormal absolute [] = Unit
IsNormal absolute (t ∷ ts) =
    (IsName t × IsNormal absolute ts) ⊎ ((t ≡ dot_dot) × (absolute ≡ false) × AllDots ts)

AllDots-IsNormal : (ts : Parts) → AllDots ts → IsNormal false ts
AllDots-IsNormal [] h = tt
AllDots-IsNormal (t ∷ ts) h = inr (h.0, refl, h.1)

pub tail-IsNormal : (a : Bool) (t : Str) (ts : Parts) → IsNormal a (t ∷ ts) → IsNormal a ts
tail-IsNormal a t ts (inl h) = h.1
tail-IsNormal true t ts (inr h) = cc
tail-IsNormal false t ts (inr h) = AllDots-IsNormal ts h.2

pub push_token-IsNormal :
    (a : Bool) (ts : Parts) (t : Str) → NoSlash t → IsNormal a ts → IsNormal a (push_token a ts t)
unfolding push_token
push_token-IsNormal a ts [] s h = h
push_token-IsNormal true [] (c ∷ t) s h =
    ground (arith, str_eq_iff (c ∷ t) dot, str_eq_iff (c ∷ t) dot_dot)
push_token-IsNormal false [] (c ∷ t) s h =
    ground (arith, str_eq_iff (c ∷ t) dot, str_eq_iff (c ∷ t) dot_dot)
push_token-IsNormal a (top ∷ ts) (c ∷ t) s h = ground (
  arith,
  str_eq_iff (c ∷ t) dot,
  str_eq_iff (c ∷ t) dot_dot,
  str_eq_iff top dot_dot,
  tail-IsNormal a top ts h,
)

pub foldl-IsNormal :
    (a : Bool) (tokens : List Str) (ts : Parts)
    → All NoSlash tokens
    → IsNormal a ts
    → IsNormal a (foldl (push_token a) ts tokens)
foldl-IsNormal a [] ts s h = h
foldl-IsNormal a (t ∷ tokens) ts s h =
    foldl-IsNormal a tokens (push_token a ts t) s.1 (push_token-IsNormal a ts t s.0 h)

pub push_token_of_IsNormal :
    (a : Bool) (ts : Parts) (t : Str) → IsNormal a (t ∷ ts) → push_token a ts t ≡ t ∷ ts
unfolding push_token
push_token_of_IsNormal a ts [] h = ground arith
push_token_of_IsNormal a [] (c ∷ t) h =
    ground (arith, str_eq_iff (c ∷ t) dot, str_eq_iff (c ∷ t) dot_dot)
push_token_of_IsNormal a (top ∷ ts) (c ∷ t) h =
    ground (arith, str_eq_iff (c ∷ t) dot, str_eq_iff (c ∷ t) dot_dot, str_eq_iff top dot_dot)

-- Feeding a normal stack to the loop, first part first, builds it again.
pub foldl_of_IsNormal :
    (a : Bool) (ts : Parts) → IsNormal a ts → foldl (push_token a) [] (reverse ts) ≡ ts
foldl_of_IsNormal a [] h = refl
foldl_of_IsNormal a (t ∷ ts) h =
    rw
      (
        reverse-cons t ts,
        foldl-append (push_token a) [] (reverse ts) (t ∷ []),
        foldl_of_IsNormal a ts (tail-IsNormal a t ts h),
      )
      (push_token_of_IsNormal a ts t h)

-- Bytes with one separator each.
unfoldable pub total : List Str → ℕ
total [] = 0
total (t ∷ ts) = length t + 1 + total ts

pub total-append : (xs ys : List Str) → total (xs ++ ys) ≡ total xs + total ys
unfolding total
total-append [] ys = omega arith
total-append (x ∷ xs) ys = omega (arith, total-append xs ys)

total-cons_head : (c : ℕ) (ts : List Str) → ts ≢ [] → total (cons_head c ts) ≡ suc (total ts)
unfolding total
total-cons_head c [] n = absurd (n refl)
total-cons_head c (t ∷ ts) n = omega arith

cons_head-ne-nil : (c : ℕ) (ts : List Str) → cons_head c ts ≢ []
cons_head-ne-nil c [] = λ e. cc
cons_head-ne-nil c (t ∷ ts) = λ e. cc

pub split-ne-nil : (s : Str) → split s ≢ []
unfolding split
split-ne-nil [] = λ e. cc
split-ne-nil (c ∷ s) = ground (arith, cons_head-ne-nil c (split s))

pub total-split : (s : Str) → total (split s) ≡ length s + 1
unfolding split total
total-split [] = refl
total-split (c ∷ s) = ground (arith, total-split s, total-cons_head c (split s) (split-ne-nil s))

total-push_token :
    (a : Bool) (ts : Parts) (t : Str) → total (push_token a ts t) ≤ length t + 1 + total ts
unfolding push_token total
total-push_token a [] t = ground arith
total-push_token a (top ∷ ts) t = ground arith

pub total-foldl :
    (a : Bool) (tokens : List Str) (ts : Parts)
    → total (foldl (push_token a) ts tokens) ≤ total tokens + total ts
unfolding total
total-foldl a [] ts = omega arith
total-foldl a (t ∷ tokens) ts =
    omega (arith, total-foldl a tokens (push_token a ts t), total-push_token a ts t)

length-le-total : (a : Bool) (ts : Parts) → IsNormal a ts → 2 * length ts ≤ total ts
unfolding total
length-le-total a [] h = omega arith
length-le-total a ([] ∷ ts) h = ground arith
length-le-total a ((c ∷ t) ∷ ts) h =
    omega (arith, length-le-total a ts (tail-IsNormal a (c ∷ t) ts h))

All-take : (xs ys : List Str) → All NoSlash (xs ++ ys) → All NoSlash xs
All-take [] ys h = tt
All-take (x ∷ xs) ys h = (h.0, All-take xs ys h.1)

-- After any number of tokens of a path shorter than PATH_MAX, `count` is at most PATH_MAX / 2, the
-- length that the array `parts` has.
pub parts-fit :
    (a : Bool) (path : Str) (seen unseen : List Str)
    → length path < path_max
    → split path ≡ seen ++ unseen
    → length (foldl (push_token a) [] seen) ≤ path_max / 2
parts-fit a path seen unseen short e = omega (
  arith,
  length-le-total a (foldl (push_token a) [] seen)
      (foldl-IsNormal a seen [] (All-take seen unseen (rw e at (split-NoSlash path))) tt),
  total-foldl a seen [],
  total-append seen unseen,
  total-split path,
  ap total e,
  total-nil,
)
  where
    total-nil : total [] ≡ 0
    total-nil = unfold total in refl
