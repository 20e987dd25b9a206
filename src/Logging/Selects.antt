-- ===== src/Logging/Selects.antt =====
-- logging.c, log_enabled against the list that it reads.
use mathlib.Core.Path.{subst}
use hooksqfs.Base.{
  ℕ, zero, suc, ◌≤◌, ◌≡◌, ◌≢◌, ◌↔◌, ◌⊎◌, inl, inr, refl, sym, ap, ◌∙◌, Bool, true, false, ◌&&◌,
  ◌||◌, not, Option, none, some, List, [], ◌∷◌, ◌++◌, arith, if◌then◌else◌, length, take, drop, Str,
  codes, str_eq_iff,
}
use hooksqfs.Path.{strn_eq}
use hooksqfs.Logging.{
  skip_blanks, scan_token, trim_len, token_is, token_names, token_enables, skip_comma, include_loop,
  log_enabled,
}
use hooksqfs.Logging.Pieces.{
  pieces, no_byte, trim_end, trim, pieces-scan_token, scan_token-skip_blanks, length-skip_comma,
  take-trim_len, trim_len-le, take-length, length-take, take-drop, scan_token-append, take-append,
  length-le-append,
}

abbrev pub Any : (Str → Type 0) → List Str → Type 0
Any P [] = ⊥
Any P (x ∷ xs) = P x ⊎ Any P xs

-- An item of the list that selects a function: ALL, its name, or its name without "sqfs_".
pub data Selects (func_name : Option Str) (item : Str) : Type 0 where
  by_all : item ≡ codes "ALL" → Selects func_name item
  by_name : item ≢ [] → func_name ≡ some item → Selects func_name item
  by_short_name : func_name ≡ some (codes "sqfs_" ++ item) → Selects func_name item

token_is-take :
    (start : Str) (k : ℕ) (name : Str)
    → k ≤ length start
    → (token_is start k name ≡ true) ↔ (take k start ≡ name)
token_is-take start k name h = (
  λ e.
      let (same, eq) = parts e in
      ap (λ n. take n start) same
      ∙ (str_eq_iff (take (length name) start) (take (length name) name)).0 eq
      ∙ take-length name,
  λ e.
      let same : k ≡ length name = sym (length-take k start h) ∙ ap length e in
      let eq =
        (str_eq_iff (take (length name) start) (take (length name) name)).1
          (ap (λ n. take n start) (sym same) ∙ e ∙ sym (take-length name)) in
      ground (arith, same, eq),
)
  where
    parts :
        token_is start k name ≡ true → (k ≡ length name) × (strn_eq start name (length name) ≡ true)
    parts e = ground arith

or_cases : (a b : Bool) → (a || b) ≡ true → (a ≡ true) ⊎ (b ≡ true)
or_cases a b e = ground arith

and_cases : (a b : Bool) → (a && b) ≡ true → (a ≡ true) × (b ≡ true)
and_cases a b e = ground arith

module _ (name start : Str) (k : ℕ) (inside : k ≤ length start) where
  Selects-name :
      not (no_byte name) && token_is start k name ≡ true → Selects (some name) (take k start)
  Selects-name e =
      let (full, is) = and_cases (not (no_byte name)) (token_is start k name) e in
      let eq = (token_is-take start k name inside).0 is in
      by_name (λ z. clash (sym eq ∙ z) full) (ap some (sym eq))
    where
      clash : name ≡ [] → not (no_byte name) ≡ true → ⊥
      clash z full = let f : not (no_byte []) ≡ true = rw z at full in cc

  Selects-short_name :
      strn_eq name (codes "sqfs_") 5 && token_is start k (drop 5 name) ≡ true
      → Selects (some name) (take k start)
  Selects-short_name e =
      let (starts, is) =
        and_cases (strn_eq name (codes "sqfs_") 5) (token_is start k (drop 5 name)) e in
      let head = (str_eq_iff (take 5 name) (codes "sqfs_")).0 starts in
      let tail = (token_is-take start k (drop 5 name) inside).0 is in
      by_short_name (
        ap some (
          sym (take-drop 5 name)
          ∙ ap (λ h. h ++ drop 5 name) head
          ∙ ap (λ t. codes "sqfs_" ++ t) (sym tail)))

  names_Selects : token_names start k (some name) ≡ true → Selects (some name) (take k start)
  names_Selects e = elim (or_cases (not (no_byte name) && token_is start k name) _ e) [
    | inl a ↦ Selects-name a
    | inr b ↦ Selects-short_name b
  ]

  enables_Selects : token_enables start k (some name) ≡ true → Selects (some name) (take k start)
  enables_Selects e = elim (or_cases (token_is start k (codes "ALL")) _ e) [
    | inl a ↦ by_all ((token_is-take start k (codes "ALL") inside).0 a)
    | inr b ↦ names_Selects b
  ]

  Selects-enables : Selects (some name) (take k start) → token_enables start k (some name) ≡ true
  Selects-enables (by_all e) = ground (arith, (token_is-take start k (codes "ALL") inside).1 e)
  Selects-enables (by_name full e) =
      let same : take k start ≡ name = cc in
      let is = (token_is-take start k name inside).1 same in
      ground (arith, is, no_byte_full name (λ z. full (same ∙ z)))
    where
      no_byte_full : (t : Str) → t ≢ [] → no_byte t ≡ false
      no_byte_full [] n = absurd (n refl)
      no_byte_full (c ∷ t) n = refl
  Selects-enables (by_short_name e) =
      let whole : name ≡ codes "sqfs_" ++ take k start = cc in
      let head = (str_eq_iff (take 5 name) (codes "sqfs_")).1 (ap (λ t. take 5 t) whole) in
      let is = (token_is-take start k (drop 5 name) inside).1 (sym (ap (λ t. drop 5 t) whole)) in
      ground (arith, head, is)

token_enables-Selects :
    (func_name : Option Str) (start : Str) (k : ℕ)
    → k ≤ length start
    → (token_enables start k func_name ≡ true) ↔ Selects func_name (take k start)
token_enables-Selects none start k h = (
  λ e.
      by_all
        ((token_is-take start k (codes "ALL") h).0 (or_none (token_is start k (codes "ALL")) e)),
  none_back,
)
  where
    or_none : (a : Bool) → (a || false) ≡ true → a ≡ true
    or_none a e = ground arith

    none_back : Selects none (take k start) → token_enables start k none ≡ true
    none_back (by_all e) = ground (arith, (token_is-take start k (codes "ALL") h).1 e)
    none_back (by_name full e) = cc
    none_back (by_short_name e) = cc
token_enables-Selects (some name) start k h =
    (enables_Selects name start k h, Selects-enables name start k h)

-- One round: the token is the first piece, trimmed.
round_token :
    (func_name : Option Str) (c : ℕ) (s : Str)
    → let start = skip_blanks (c ∷ s) in
      let n = length (scan_token start).0 in
      (token_enables start (trim_len start n) func_name ≡ true)
      ↔ Selects func_name (trim (scan_token (c ∷ s)).0)
unfolding trim trim_end
round_token func_name c s =
    let start = skip_blanks (c ∷ s) in
    let token = (scan_token start).0 in
    let whole = scan_token-append start in
    let cut : take (length token) start ≡ token =
      ap (λ t. take (length token) t) (sym whole) ∙ take-append token (scan_token start).1 in
    let inside : length token ≤ length start =
      subst (λ t. length token ≤ length t) whole (length-le-append token (scan_token start).1) in
    let item : take (trim_len start (length token)) start ≡ trim (scan_token (c ∷ s)).0 =
      take-trim_len start (length token) inside
      ∙ ap trim_end (cut ∙ ap (λ r. r.0) (scan_token-skip_blanks (c ∷ s))) in
    subst
      (λ t.
        (token_enables start (trim_len start (length token)) func_name ≡ true)
        ↔ Selects func_name t)
      item
      (token_enables-Selects func_name start (trim_len start (length token))
        (omega (arith, inside, trim_len-le start (length token))))

-- What the loop finds in the text from `p` on.
abbrev pub Listed : Option Str → Str → Type 0
Listed func_name p = Any (λ piece. Selects func_name (trim piece)) (pieces p)

first_or_rest :
    {P Q : Type 0} (a b : Bool)
    → (a ≡ true) ↔ P
    → (b ≡ true) ↔ Q
    → ((if a then true else b) ≡ true) ↔ (P ⊎ Q)
first_or_rest true b p q = (λ e. inl (p.0 refl), λ l. refl)
first_or_rest {P} {Q} false b p q = (λ e. inr (q.0 e), back)
  where
    back : P ⊎ Q → b ≡ true
    back (inl x) = cc (p.1 x)
    back (inr y) = q.1 y

include_loop-Listed :
    (fuel : ℕ) (func_name : Option Str) (p : Str)
    → length p ≤ fuel
    → (include_loop fuel func_name p ≡ true) ↔ Listed func_name p
unfolding include_loop
include_loop-Listed zero func_name [] h = unfold pieces in (λ e. cc, λ l. absurd l)
include_loop-Listed zero func_name (c ∷ s) h = absurd (omega arith)
include_loop-Listed (suc fuel) func_name [] h = unfold pieces in (λ e. cc, λ l. absurd l)
include_loop-Listed (suc fuel) func_name (c ∷ s) h =
    let p = (scan_token (c ∷ s)).1 in
    let same : (scan_token (skip_blanks (c ∷ s))).1 ≡ p =
      ap (λ r. r.1) (scan_token-skip_blanks (c ∷ s)) in
    let rest =
      include_loop-Listed fuel func_name (skip_comma p) (omega (arith, h, length-skip_comma c s)) in
    rw (pieces-scan_token c s, same)
      (first_or_rest _ (include_loop fuel func_name (skip_comma p)) (round_token func_name c s)
        rest)

-- log_enabled says yes exactly when an item of the list, without the blanks at its ends, is ALL, is the
-- name of the function and not empty, or is the name without a leading "sqfs_". The items stand
-- between the commas; a comma at the end of the list opens none.
pub log_enabled-Listed :
    (func_name : Option Str) (include : Str)
    → (log_enabled (some include) func_name ≡ true) ↔ Listed func_name include
unfolding log_enabled
log_enabled-Listed func_name include =
    include_loop-Listed (length include) func_name include (omega arith)
