-- ===== src/Base/Cuts.antt =====
-- Where a list that is put together is cut.
use Prim.Native.Nat.{ℕ, zero, suc, ◌+◌, ◌-◌, ◌≤◌, min}
use mathlib.Core.Path.{◌≡◌, refl, ap, ◌∙◌, sym}
use mathlib.Core.List.{List, [], ◌∷◌, ◌++◌}
use native.Mathlib.Omega.{arith}
use sandbox_driver.Base.Lists.{length, take, drop}

module _ {ℓ} {A : Type ℓ} where
  pub take-append :
      (n : ℕ) (xs ys : List A) → take n (xs ++ ys) ≡ take n xs ++ take (n - length xs) ys
  take-append zero xs ys = let z : 0 - length xs ≡ 0 = omega arith in rw z refl
  take-append (suc n) [] ys = let z : suc n - 0 ≡ suc n = omega arith in rw z refl
  take-append (suc n) (x ∷ xs) ys =
      let z : suc n - suc (length xs) ≡ n - length xs = omega arith in
      rw z (ap (◌∷◌ x) (take-append n xs ys))

  pub drop-append :
      (n : ℕ) (xs ys : List A) → drop n (xs ++ ys) ≡ drop n xs ++ drop (n - length xs) ys
  drop-append zero xs ys = let z : 0 - length xs ≡ 0 = omega arith in rw z refl
  drop-append (suc n) [] ys = let z : suc n - 0 ≡ suc n = omega arith in rw z refl
  drop-append (suc n) (x ∷ xs) ys =
      let z : suc n - suc (length xs) ≡ n - length xs = omega arith in rw z (drop-append n xs ys)

  pub take-min : (n : ℕ) (xs : List A) → take (min n (length xs)) xs ≡ take n xs
  take-min zero xs = let z : min 0 (length xs) ≡ 0 = omega arith in rw z refl
  take-min (suc n) [] = let z : min (suc n) 0 ≡ 0 = omega arith in rw z refl
  take-min (suc n) (x ∷ xs) =
      let z : min (suc n) (suc (length xs)) ≡ suc (min n (length xs)) = omega arith in
      rw z (ap (◌∷◌ x) (take-min n xs))

  pub drop-min : (n : ℕ) (xs : List A) → drop (min n (length xs)) xs ≡ drop n xs
  drop-min zero xs = let z : min 0 (length xs) ≡ 0 = omega arith in rw z refl
  drop-min (suc n) [] = let z : min (suc n) 0 ≡ 0 = omega arith in rw z refl
  drop-min (suc n) (x ∷ xs) =
      let z : min (suc n) (suc (length xs)) ≡ suc (min n (length xs)) = omega arith in
      rw z (drop-min n xs)

  abbrev nothing : List A
  nothing = []

  pub take-nil : (m : ℕ) → take m nothing ≡ []
  take-nil zero = refl
  take-nil (suc m) = refl

  pub drop-nil : (m : ℕ) → drop m nothing ≡ []
  drop-nil zero = refl
  drop-nil (suc m) = refl

  pub drop-drop : (m n : ℕ) (xs : List A) → drop m (drop n xs) ≡ drop (n + m) xs
  drop-drop m zero xs = let z : 0 + m ≡ m = omega arith in rw z refl
  drop-drop m (suc n) [] = drop-nil m ∙ sym (drop-nil (suc n + m))
  drop-drop m (suc n) (x ∷ xs) =
      let z : suc n + m ≡ suc (n + m) = omega arith in rw z (drop-drop m n xs)

  pub take-all : (n : ℕ) (xs : List A) → length xs ≤ n → take n xs ≡ xs
  take-all zero [] h = refl
  take-all zero (x ∷ xs) h = absurd (omega arith)
  take-all (suc n) [] h = refl
  take-all (suc n) (x ∷ xs) h = ap (◌∷◌ x) (take-all n xs (omega arith))

  -- The last `n` elements.
  abbrev pub latest : ℕ → List A → List A
  latest n xs = drop (length xs - n) xs
