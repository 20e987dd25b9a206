-- ===== src/Path/Roots.antt =====
-- utils.c, the normalized root of path_relative_to_root as a text.
use hooksqfs.Base.{
  ℕ, suc, ◌≡◌, refl, sym, ap, ◌∙◌, ◌≢◌, List, [], ◌∷◌, ◌++◌, append-nil, append_assoc, arith,
  length, length-append, Str, All,
}
use hooksqfs.Path.{slash, char_at, strip_slashes}
use hooksqfs.Path.Tokens.{NoSlash, split, cons_head}
use hooksqfs.Path.Components.{split-ne-nil}
use hooksqfs.Path.Render.{slashed, NonEmpty}
use hooksqfs.Path.Prefix.{IsRoot}

char_at-last : (u : Str) (c : ℕ) → char_at (u ++ c ∷ []) (length u) ≡ c
char_at-last [] c = refl
char_at-last (d ∷ u) c = char_at-last u c

-- A text that does not end in a slash.
record Ends (s : Str) : Type 0 where
  init : Str
  last : ℕ
  whole : s ≡ init ++ last ∷ []
  plain : last ≢ slash

Ends-append : (u s : Str) → Ends s → Ends (u ++ s)
Ends-append u s e = record {
  init = u ++ e.init;
  last = e.last;
  whole = rw (append_assoc u e.init (e.last ∷ [])) (ap (λ v. u ++ v) e.whole);
  plain = e.plain;
}

Ends-of_NoSlash : (c : ℕ) (t : Str) → NoSlash (c ∷ t) → Ends (c ∷ t)
Ends-of_NoSlash c [] h = record { init = []; last = c; whole = refl; plain = h.0 }
Ends-of_NoSlash c (d ∷ t) h = Ends-append (c ∷ []) (d ∷ t) (Ends-of_NoSlash d t h.1)

Ends-join :
    (t : Str) (ts : List Str) → All NoSlash (t ∷ ts) → NonEmpty (t ∷ ts) → Ends (t ++ slashed ts)
unfolding slashed
Ends-join [] ts h n = absurd (n.0 refl)
Ends-join (c ∷ t) [] h n = rw (append-nil (c ∷ t)) (Ends-of_NoSlash c t h.0)
Ends-join (c ∷ t) (u ∷ ts) h n =
    Ends-append (c ∷ t) (slash ∷ (u ++ slashed ts))
      (Ends-append (slash ∷ []) (u ++ slashed ts) (Ends-join u ts h.1 n.1))

strip_slashes_at : (s : Str) (n : ℕ) → char_at s n ≢ slash → strip_slashes s (suc n) ≡ suc n
unfolding strip_slashes
strip_slashes_at s n h = ground arith

strip_slashes-Ends : (s : Str) → Ends s → strip_slashes s (length s) ≡ length s
strip_slashes-Ends s e =
    let n : length s ≡ suc (length e.init) =
      ap length e.whole ∙ omega (arith, length-append e.init (e.last ∷ [])) in
    let at : char_at s (length e.init) ≡ e.last =
      ap (λ v. char_at v (length e.init)) e.whole ∙ char_at-last e.init e.last in
    rw n (strip_slashes_at s (length e.init) (λ hit. e.plain (sym at ∙ hit)))

pub slashed-IsRoot :
    (t : Str) (ts : List Str) → All NoSlash (t ∷ ts) → NonEmpty (t ∷ ts) → IsRoot (slashed (t ∷ ts))
unfolding slashed
slashed-IsRoot [] ts h n = absurd (n.0 refl)
slashed-IsRoot (c ∷ t) ts h n = record {
  long = omega arith;
  stripped =
      strip_slashes-Ends (slash ∷ ((c ∷ t) ++ slashed ts))
        (Ends-append (slash ∷ []) ((c ∷ t) ++ slashed ts) (Ends-join (c ∷ t) ts h n));
}

pub slashed-append : (xs ys : List Str) → slashed (xs ++ ys) ≡ slashed xs ++ slashed ys
unfolding slashed
slashed-append [] ys = refl
slashed-append (x ∷ xs) ys =
    rw (slashed-append xs ys) (ap (λ s. slash ∷ s) (sym (append_assoc x (slashed xs) (slashed ys))))

cons_head-append :
    (c : ℕ) (xs ys : List Str) → xs ≢ [] → cons_head c (xs ++ ys) ≡ cons_head c xs ++ ys
cons_head-append c [] ys n = absurd (n refl)
cons_head-append c (x ∷ xs) ys n = refl

-- Text on the two sides of a slash has its own pieces.
pub split-concat : (x w : Str) → split (x ++ slash ∷ w) ≡ split x ++ split w
unfolding split
split-concat [] w = refl
split-concat (c ∷ x) w =
    ground (arith, split-concat x w, cons_head-append c (split x) (split w), split-ne-nil x)
