-- ===== src/Path/Render.antt =====
-- utils.c, append_str and the loop of path_normalize_lexical that rebuilds the path.
use hooksqfs.Base.{
  ℕ, ◌+◌, ◌^◌, ◌<◌, ◌≡◌, ◌≢◌, Bool, true, false, Option, none, some, List, [], ◌∷◌, ◌++◌,
  append_assoc, append-nil, arith, ltb, ◌==◌, if◌then◌else◌, length, length-append, Str, All,
}
use hooksqfs.Path.{slash, append_str, append_part, rebuild}

-- A text that is written to a buffer of `n` bytes, the NUL included.
abbrev pub fit : ℕ → Str → Option Str
fit n s = if ltb (length s) n then some s else none

-- Every component behind a slash.
unfoldable pub slashed : List Str → Str
slashed [] = []
slashed (t ∷ ts) = slash ∷ (t ++ slashed ts)

abbrev pub join : List Str → Str
join [] = []
join (t ∷ ts) = t ++ slashed ts

abbrev pub NonEmpty : List Str → Type 0
NonEmpty = All (λ t. t ≢ [])

-- append_str to a text that is in a buffer of n bytes with its NUL: the concatenation where that fits
-- too, and otherwise a refusal. A size is a 32-bit size_t.
pub append_str-fit :
    (n : ℕ) (out s : Str)
    → length out < n
    → n < 2 ^ 32
    → append_str (some out) n (some s) ≡ fit n (out ++ s)
unfolding append_str
append_str-fit n out s h w = ground (arith, length-append out s)

append_part-fit :
    (a : Bool) (n i : ℕ) (out t : Str)
    → 1 < length out
    → 0 < i
    → length out < n
    → n < 2 ^ 32
    → append_part a n i out t ≡ fit n (out ++ slash ∷ t)
unfolding append_part
append_part-fit a n i out t l p h w = rw (append_str-fit n out (slash ∷ []) h w) (
    ground (
      arith,
      append_str-fit n (out ++ slash ∷ []) t,
      length-append out (slash ∷ []),
      length-append out (slash ∷ t),
      append_assoc out (slash ∷ []) t,
    ))

rebuild-slashed :
    (a : Bool) (n i : ℕ) (out : Str) (ts : List Str)
    → 1 < length out
    → 0 < i
    → length out < n
    → n < 2 ^ 32
    → rebuild a n i out ts ≡ fit n (out ++ slashed ts)
unfolding rebuild slashed
rebuild-slashed a n i out [] l p h w = rw append-nil (ground arith)
rebuild-slashed a n i out (t ∷ ts) l p h w = rw (append_part-fit a n i out t l p h w) (
    ground (
      arith,
      rebuild-slashed a n (i + 1) (out ++ slash ∷ t) ts,
      length-append out (slash ∷ t),
      length-append out (slash ∷ (t ++ slashed ts)),
      length-append t (slashed ts),
      append_assoc out (slash ∷ t) (slashed ts),
    ))

-- An absolute path: a slash, and the components with one slash between them.
pub rebuild-absolute :
    (n : ℕ) (ts : List Str)
    → 1 < n
    → n < 2 ^ 32
    → NonEmpty ts
    → rebuild true n 0 (slash ∷ []) ts ≡ fit n (slash ∷ join ts)
unfolding rebuild append_part
rebuild-absolute n [] l w h = ground arith
rebuild-absolute n ([] ∷ ts) l w h = ground arith
rebuild-absolute n ((c ∷ t) ∷ ts) l w h = ground (
  arith,
  append_str-fit n (slash ∷ []) (c ∷ t),
  rebuild-slashed true n 1 (slash ∷ c ∷ t) ts,
  length-append t (slashed ts),
)

-- What the loop writes for a relative path: no slash follows a first component of one byte.
unfoldable pub glued : List Str → Str
glued [] = []
glued (t ∷ ts) = if length t == 1 then t ++ join ts else t ++ slashed ts

rebuild-first :
    (n : ℕ) (c d : ℕ) (t : Str) (ts : List Str)
    → n < 2 ^ 32
    → length (c ∷ d ∷ t) < n
    → rebuild false n 1 (c ∷ d ∷ t) ts ≡ fit n ((c ∷ d ∷ t) ++ slashed ts)
rebuild-first n c d t ts w l =
    rebuild-slashed false n 1 (c ∷ d ∷ t) ts (omega arith) (omega arith) l w

rebuild-second :
    (n : ℕ) (c : ℕ) (ts : List Str)
    → 1 < n
    → n < 2 ^ 32
    → NonEmpty ts
    → rebuild false n 1 (c ∷ []) ts ≡ fit n (c ∷ join ts)
unfolding rebuild append_part
rebuild-second n c [] l w h = ground arith
rebuild-second n c ([] ∷ ts) l w h = ground arith
rebuild-second n c ((d ∷ t) ∷ ts) l w h = ground (
  arith,
  append_str-fit n (c ∷ []) (d ∷ t),
  rebuild-slashed false n 2 (c ∷ d ∷ t) ts,
  length-append t (slashed ts),
)

pub rebuild-relative :
    (n : ℕ) (ts : List Str)
    → 0 < n
    → n < 2 ^ 32
    → NonEmpty ts
    → rebuild false n 0 [] ts ≡ fit n (glued ts)
unfolding rebuild append_part glued
rebuild-relative n [] l w h = ground arith
rebuild-relative n ([] ∷ ts) l w h = ground arith
rebuild-relative n ((c ∷ []) ∷ ts) l w h =
    ground (arith, append_str-fit n [] (c ∷ []), rebuild-second n c ts)
rebuild-relative n ((c ∷ d ∷ t) ∷ ts) l w h =
    ground (
      arith,
      append_str-fit n [] (c ∷ d ∷ t),
      rebuild-first n c d t ts,
      length-append t (slashed ts),
    )
