-- ===== src/Base/Lists.antt =====
-- Lists measured by native numbers, under the library's names.
use Prim.Native.Nat.{ℕ, zero, suc, ◌+◌, ◌≤◌, max}
use mathlib.Core.Path.{◌≡◌, refl, ap}
use mathlib.Core.List.{List, [], ◌∷◌, ◌++◌, reverse, reverse-cons}
use native.Mathlib.Omega.{arith}

module _ {ℓ} {A : Type ℓ} where
  abbrev pub length : List A → ℕ
  length [] = 0
  length (x ∷ xs) = suc (length xs)

  abbrev pub take : ℕ → List A → List A
  take zero xs = []
  take (suc n) [] = []
  take (suc n) (x ∷ xs) = x ∷ take n xs

  abbrev pub drop : ℕ → List A → List A
  drop zero xs = xs
  drop (suc n) [] = []
  drop (suc n) (x ∷ xs) = drop n xs

  pub length-append : (xs ys : List A) → length (xs ++ ys) ≡ length xs + length ys
  length-append [] ys = omega arith
  length-append (x ∷ xs) ys = omega (arith, length-append xs ys)

  pub length-reverse : (xs : List A) → length (reverse xs) ≡ length xs
  length-reverse [] = refl
  length-reverse (x ∷ xs) =
      omega (
        arith,
        ap length (reverse-cons x xs),
        length-append (reverse xs) (x ∷ []),
        length-reverse xs,
      )

module _ {ℓ} {A : Type ℓ} where
  pub length-take-drop :
      (n m : ℕ) (xs : List A)
      → (length (take n (drop m xs)) ≤ n) × (length (take n (drop m xs)) + m ≤ max m (length xs))
  length-take-drop zero zero xs = omega arith
  length-take-drop (suc n) zero [] = omega arith
  length-take-drop (suc n) zero (x ∷ xs) = omega (arith, length-take-drop n zero xs)
  length-take-drop zero (suc m) xs = omega arith
  length-take-drop (suc n) (suc m) [] = omega arith
  length-take-drop (suc n) (suc m) (x ∷ xs) = omega (arith, length-take-drop (suc n) m xs)

  pub drop-drop : (n m k : ℕ) (xs : List A) → k ≡ m + n → drop k xs ≡ drop n (drop m xs)
  drop-drop n zero k xs e = ap (λ j. drop j xs) (omega arith)
  drop-drop zero (suc m) zero [] e = refl
  drop-drop (suc n) (suc m) zero [] e = refl
  drop-drop zero (suc m) (suc k) [] e = refl
  drop-drop (suc n) (suc m) (suc k) [] e = refl
  drop-drop n (suc m) zero (x ∷ xs) e = absurd (omega arith)
  drop-drop n (suc m) (suc k) (x ∷ xs) e = drop-drop n m k xs (omega arith)

  -- A first piece of at most `m` elements and the next `k` make the first `m + k`.
  pub take-take-drop :
      (m k n : ℕ) (xs : List A)
      → n ≡ m + k
      → take m xs ++ take k (drop (length (take m xs)) xs) ≡ take n xs
  take-take-drop zero k n xs e = ap (λ j. take j xs) (omega arith)
  take-take-drop (suc m) zero zero [] e = refl
  take-take-drop (suc m) (suc k) zero [] e = refl
  take-take-drop (suc m) zero (suc n) [] e = refl
  take-take-drop (suc m) (suc k) (suc n) [] e = refl
  take-take-drop (suc m) k zero (x ∷ xs) e = absurd (omega arith)
  take-take-drop (suc m) k (suc n) (x ∷ xs) e =
      ap (λ ys. x ∷ ys) (take-take-drop m k n xs (omega arith))

module _ {ℓ κ} {A : Type ℓ} (P : A → Type κ) where
  abbrev pub All : List A → Type κ
  All [] = Unit
  All (x ∷ xs) = P x × All xs

  pub All-append : (xs ys : List A) → All xs → All ys → All (xs ++ ys)
  All-append [] ys hx hy = hy
  All-append (x ∷ xs) ys (px, hx) hy = (px, All-append xs ys hx hy)

  pub All-reverse : (xs : List A) → All xs → All (reverse xs)
  All-reverse [] h = tt
  All-reverse (x ∷ xs) (p, h) =
      rw (reverse-cons x xs) (All-append (reverse xs) (x ∷ []) (All-reverse xs h) (p, tt))
