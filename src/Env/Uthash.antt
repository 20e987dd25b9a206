-- ===== src/Env/Uthash.antt =====
-- uthash.h as the program uses it: a table of entries, each under its key. The laws are those that
-- its documentation states: an application adds no key that is there already, and then every key
-- has one entry.
use hooksqfs.Base.{ℕ, suc, ◌+◌, ◌≡◌, ◌≢◌, Option, none, some}

pub record Table (K V : Type 0) : Type 1 where
  pub Map : Type 0
  pub empty : Map
  pub find : K → Map → Option V
  pub add : K → V → Map → Map
  -- a write through the pointer that `find` gave
  pub update : K → V → Map → Map
  -- HASH_DEL of the entry that `find` gave
  pub del : K → Map → Map
  pub count : Map → ℕ
  -- the sum of a number over all entries
  pub total : (V → ℕ) → Map → ℕ
  pub IsUnique : Map → Type 0
  pub empty-IsUnique : IsUnique empty
  pub add-IsUnique : (k : K) (v : V) (m : Map) → find k m ≡ none → IsUnique m → IsUnique (add k v m)
  pub update-IsUnique : (k : K) (v : V) (m : Map) → IsUnique m → IsUnique (update k v m)
  pub del-IsUnique : (k : K) (m : Map) → IsUnique m → IsUnique (del k m)
  pub find-empty : (k : K) → find k empty ≡ none
  pub find-add : (k : K) (v : V) (m : Map) → find k m ≡ none → find k (add k v m) ≡ some v
  pub find-add_ne : (j k : K) (v : V) (m : Map) → j ≢ k → find j (add k v m) ≡ find j m
  pub find-update : (k : K) (v w : V) (m : Map) → find k m ≡ some w → find k (update k v m) ≡ some v
  pub find-update_ne : (j k : K) (v : V) (m : Map) → j ≢ k → find j (update k v m) ≡ find j m
  pub find-del : (k : K) (m : Map) → IsUnique m → find k (del k m) ≡ none
  pub find-del_ne : (j k : K) (m : Map) → j ≢ k → find j (del k m) ≡ find j m
  pub count-empty : count empty ≡ 0
  pub count-add : (k : K) (v : V) (m : Map) → count (add k v m) ≡ suc (count m)
  pub count-update : (k : K) (v : V) (m : Map) → count (update k v m) ≡ count m
  pub count-del : (k : K) (v : V) (m : Map) → find k m ≡ some v → suc (count (del k m)) ≡ count m
  pub total-add : (f : V → ℕ) (k : K) (v : V) (m : Map) → total f (add k v m) ≡ f v + total f m
  pub total-update :
      (f : V → ℕ) (k : K) (v w : V) (m : Map)
      → find k m ≡ some w
      → total f (update k v m) + f w ≡ total f m + f v
  pub total-del :
      (f : V → ℕ) (k : K) (v : V) (m : Map)
      → find k m ≡ some v
      → f v + total f (del k m) ≡ total f m
