-- ===== src/Env/Assoc.antt =====
-- A table of uthash.h as an association list of its entries, the newest first.
use mathlib.Core.Path.{subst}
use hooksqfs.Base.{
  ℕ, suc, ◌+◌, ◌≡◌, refl, sym, ap, ◌∙◌, ◌≢◌, Bool, true, false, Option, none, some, List, [], ◌∷◌,
  length, inl, inr, arith, Bool-cases, if◌then◌else◌, ◌==◌,
}
use hooksqfs.Base.Int.{ℤ, pos, negsuc}
use hooksqfs.Env.Uthash.{Table}

-- The comparison of keys.
pub record Key (K : Type 0) : Type 0 where
  pub same_key : K → K → Bool
  pub same_key_refl : (k : K) → same_key k k ≡ true
  pub same_key_sound : (j k : K) → same_key j k ≡ true → j ≡ k

abbrev pub int_same : ℤ → ℤ → Bool
int_same (pos m) (pos n) = m == n
int_same (pos m) (negsuc n) = false
int_same (negsuc m) (pos n) = false
int_same (negsuc m) (negsuc n) = m == n

pub int_same_refl : (k : ℤ) → int_same k k ≡ true
int_same_refl (pos n) = ground arith
int_same_refl (negsuc n) = ground arith

pub int_same_sound : (j k : ℤ) → int_same j k ≡ true → j ≡ k
int_same_sound (pos m) (pos n) h = ap pos (ground arith)
int_same_sound (pos m) (negsuc n) h = ground arith
int_same_sound (negsuc m) (pos n) h = ground arith
int_same_sound (negsuc m) (negsuc n) h = ap negsuc (ground arith)

abbrev pub int_key : Key ℤ
int_key = record {
  same_key = int_same;
  same_key_refl = int_same_refl;
  same_key_sound = int_same_sound;
}

pub nat_same_refl : (k : ℕ) → (k == k) ≡ true
nat_same_refl k = ground arith

pub nat_same_sound : (j k : ℕ) → (j == k) ≡ true → j ≡ k
nat_same_sound j k h = ground arith

abbrev pub nat_key : Key ℕ
nat_key = record { same_key = ◌==◌; same_key_refl = nat_same_refl; same_key_sound = nat_same_sound }

module _ {K : Type 0} (key : Key K) where
  open key use {same_key, same_key_refl, same_key_sound}

  -- Keys differ: the head is not the one that is looked for.
  pub head_ne : (j k l : K) → j ≢ k → same_key k l ≡ true → same_key j l ≡ false
  head_ne j k l d h = elim (Bool-cases (same_key j l)) [
    | inl t ↦ absurd (d (same_key_sound j l t ∙ sym (same_key_sound k l h)))
    | inr f ↦ f
  ]

module _ {K V : Type 0} (key : Key K) where
  open key use {same_key, same_key_refl, same_key_sound}

  abbrev pub find : K → List (K × V) → Option V
  find k [] = none
  find k (x ∷ m) = if same_key k x.0 then some x.1 else find k m

  abbrev pub update : K → V → List (K × V) → List (K × V)
  update k v [] = []
  update k v (x ∷ m) = if same_key k x.0 then (x.0, v) ∷ m else x ∷ update k v m

  abbrev pub del : K → List (K × V) → List (K × V)
  del k [] = []
  del k (x ∷ m) = if same_key k x.0 then m else x ∷ del k m

  abbrev pub IsUnique : List (K × V) → Type 0
  IsUnique [] = Unit
  IsUnique (x ∷ m) = (find x.0 m ≡ none) × IsUnique m

  pub find-update :
      (k : K) (v w : V) (m : List (K × V)) → find k m ≡ some w → find k (update k v m) ≡ some v
  find-update k v w [] h = ground arith
  find-update k v w (x ∷ m) h = elim (Bool-cases (same_key k x.0)) [
    | inl t ↦ rw t (rw t refl)
    | inr f ↦ rw f (rw f (find-update k v w m (ground arith)))
  ]

  pub find-update_ne :
      (j k : K) (v : V) (m : List (K × V)) → j ≢ k → find j (update k v m) ≡ find j m
  find-update_ne j k v [] d = refl
  find-update_ne j k v (x ∷ m) d = elim (Bool-cases (same_key k x.0)) [
    | inl t ↦ rw t (rw (head_ne key j k x.0 d t) refl)
    | inr f ↦ rw f (ap (λ r. if same_key j x.0 then some x.1 else r) (find-update_ne j k v m d))
  ]

  pub find-del_ne : (j k : K) (m : List (K × V)) → j ≢ k → find j (del k m) ≡ find j m
  find-del_ne j k [] d = refl
  find-del_ne j k (x ∷ m) d = elim (Bool-cases (same_key k x.0)) [
    | inl t ↦ rw t (rw (head_ne key j k x.0 d t) refl)
    | inr f ↦ rw f (ap (λ r. if same_key j x.0 then some x.1 else r) (find-del_ne j k m d))
  ]

  pub find-del : (k : K) (m : List (K × V)) → IsUnique m → find k (del k m) ≡ none
  find-del k [] u = refl
  find-del k (x ∷ m) u = elim (Bool-cases (same_key k x.0)) [
    | inl t ↦ rw t (subst (λ l. find l m ≡ none) (sym (same_key_sound k x.0 t)) u.0)
    | inr f ↦ rw f (rw f (find-del k m u.1))
  ]

  -- A removal or a write finds no key that was not there.
  find_none-del : (j k : K) (m : List (K × V)) → find j m ≡ none → find j (del k m) ≡ none
  find_none-del j k [] h = refl
  find_none-del j k (x ∷ m) h = elim (Bool-cases (same_key j x.0)) [
    | inl t ↦ ground arith
    | inr f ↦ elim (Bool-cases (same_key k x.0)) [
      | inl t ↦ rw t (ground arith)
      | inr g ↦ rw g (rw f (find_none-del j k m (ground arith)))
    ]
  ]

  find_none-update :
      (j k : K) (v : V) (m : List (K × V)) → find j m ≡ none → find j (update k v m) ≡ none
  find_none-update j k v [] h = refl
  find_none-update j k v (x ∷ m) h = elim (Bool-cases (same_key j x.0)) [
    | inl t ↦ ground arith
    | inr f ↦ elim (Bool-cases (same_key k x.0)) [
      | inl t ↦ rw t (rw f (ground arith))
      | inr g ↦ rw g (rw f (find_none-update j k v m (ground arith)))
    ]
  ]

  pub update-IsUnique : (k : K) (v : V) (m : List (K × V)) → IsUnique m → IsUnique (update k v m)
  update-IsUnique k v [] u = u
  update-IsUnique k v (x ∷ m) u = elim (Bool-cases (same_key k x.0)) [
    | inl t ↦ rw t u
    | inr f ↦ rw f (find_none-update x.0 k v m u.0, update-IsUnique k v m u.1)
  ]

  pub del-IsUnique : (k : K) (m : List (K × V)) → IsUnique m → IsUnique (del k m)
  del-IsUnique k [] u = u
  del-IsUnique k (x ∷ m) u = elim (Bool-cases (same_key k x.0)) [
    | inl t ↦ rw t u.1
    | inr f ↦ rw f (find_none-del x.0 k m u.0, del-IsUnique k m u.1)
  ]

  pub length-update : (k : K) (v : V) (m : List (K × V)) → length (update k v m) ≡ length m
  length-update k v [] = refl
  length-update k v (x ∷ m) = elim (Bool-cases (same_key k x.0)) [
    | inl t ↦ rw t refl
    | inr f ↦ rw f (ap suc (length-update k v m))
  ]

  pub length-del :
      (k : K) (v : V) (m : List (K × V)) → find k m ≡ some v → suc (length (del k m)) ≡ length m
  length-del k v [] h = ground arith
  length-del k v (x ∷ m) h = elim (Bool-cases (same_key k x.0)) [
    | inl t ↦ rw t refl
    | inr f ↦ rw f (ap suc (length-del k v m (ground arith)))
  ]

  abbrev pub total : (V → ℕ) → List (K × V) → ℕ
  total f [] = 0
  total f (x ∷ m) = f x.1 + total f m

  pub total-update :
      (f : V → ℕ) (k : K) (v w : V) (m : List (K × V))
      → find k m ≡ some w
      → total f (update k v m) + f w ≡ total f m + f v
  total-update f k v w [] h = ground arith
  total-update f k v w (x ∷ m) h = elim (Bool-cases (same_key k x.0)) [
    | inl t ↦ rw t (ground arith)
    | inr g ↦ rw g (omega (arith, total-update f k v w m (ground arith)))
  ]

  pub total-del :
      (f : V → ℕ) (k : K) (v : V) (m : List (K × V))
      → find k m ≡ some v
      → f v + total f (del k m) ≡ total f m
  total-del f k v [] h = ground arith
  total-del f k v (x ∷ m) h = elim (Bool-cases (same_key k x.0)) [
    | inl t ↦ rw t (ground arith)
    | inr g ↦ rw g (omega (arith, total-del f k v m (ground arith)))
  ]

-- The table and its laws.
abbrev pub assoc : {K : Type 0} → Key K → (V : Type 0) → Table K V
assoc {K} key V = record {
  Map = List (K × V);
  empty = [];
  find = find key;
  add = λ k v m. (k, v) ∷ m;
  update = update key;
  del = del key;
  count = length;
  total = total key;
  IsUnique = IsUnique key;
  empty-IsUnique = tt;
  add-IsUnique = λ k v m h u. (h, u);
  update-IsUnique = update-IsUnique key;
  del-IsUnique = del-IsUnique key;
  find-empty = λ k. refl;
  find-add = λ k v m h. rw (key.same_key_refl k) refl;
  find-add_ne = λ j k v m d. rw (head_ne key j k k d (key.same_key_refl k)) refl;
  find-update = find-update key;
  find-update_ne = find-update_ne key;
  find-del = find-del key;
  find-del_ne = find-del_ne key;
  count-empty = refl;
  count-add = λ k v m. refl;
  count-update = length-update key;
  count-del = length-del key;
  total-add = λ f k v m. refl;
  total-update = total-update key;
  total-del = total-del key;
}
