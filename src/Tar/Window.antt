-- ===== src/Tar/Window.antt =====
-- Ranges of a byte list that arrives in pieces.
use sandbox_driver.Base.{
  ℕ, zero, suc, ◌+◌, ◌-◌, ◌≤◌, min, ◌≡◌, refl, sym, ap, ◌∙◌, inl, inr, List, [], ◌∷◌, ◌++◌, length,
  length-drop, take, drop, arith, append-nil, ltb, Bool-cases, if◌then◌else◌,
}

-- The bytes from `from` up to `to`.
abbrev pub window {ℓ} : {A : Type ℓ} → ℕ → ℕ → List A → List A
window from to xs = take (to - from) (drop from xs)

module _ {ℓ} {A : Type ℓ} where
  pub take-append :
      (n : ℕ) (xs ys : List A) → take n (xs ++ ys) ≡ take n xs ++ take (n - length xs) ys
  take-append zero xs ys = let e : zero - length xs ≡ zero = omega arith in rw e refl
  take-append (suc n) [] ys = let e : suc n - 0 ≡ suc n = omega arith in rw e refl
  take-append (suc n) (x ∷ xs) ys =
      let e : suc n - suc (length xs) ≡ n - length xs = omega arith in
      rw e (ap (◌∷◌ x) (take-append n xs ys))

  pub drop-append :
      (n : ℕ) (xs ys : List A) → drop n (xs ++ ys) ≡ drop n xs ++ drop (n - length xs) ys
  drop-append zero xs ys = let e : zero - length xs ≡ zero = omega arith in rw e refl
  drop-append (suc n) [] ys = let e : suc n - 0 ≡ suc n = omega arith in rw e refl
  drop-append (suc n) (x ∷ xs) ys =
      let e : suc n - suc (length xs) ≡ n - length xs = omega arith in rw e (drop-append n xs ys)

  pub drop-take : (m n : ℕ) (xs : List A) → drop m (take n xs) ≡ take (n - m) (drop m xs)
  drop-take zero n xs = let e : n - zero ≡ n = omega arith in rw e refl
  drop-take (suc m) zero xs = let e : zero - suc m ≡ zero = omega arith in rw e refl
  drop-take (suc m) (suc n) [] = take-nil _
    where
      take-nil : (k : ℕ) → [] ≡ take {A = A} k []
      take-nil zero = refl
      take-nil (suc k) = refl
  drop-take (suc m) (suc n) (x ∷ xs) =
      let e : suc n - suc m ≡ n - m = omega arith in rw e (drop-take m n xs)

  pub take-take : (m n : ℕ) (xs : List A) → take m (take n xs) ≡ take (min m n) xs
  take-take zero n xs = let e : min zero n ≡ zero = omega arith in rw e refl
  take-take (suc m) zero xs = let e : min (suc m) zero ≡ zero = omega arith in rw e refl
  take-take (suc m) (suc n) [] =
      let e : min (suc m) (suc n) ≡ suc (min m n) = omega arith in rw e refl
  take-take (suc m) (suc n) (x ∷ xs) =
      let e : min (suc m) (suc n) ≡ suc (min m n) = omega arith in
      rw e (ap (◌∷◌ x) (take-take m n xs))

  -- A range of two pieces is a range of each.
  pub window-append :
      (from to : ℕ) (xs ys : List A)
      → window from to (xs ++ ys)
        ≡ window from to xs ++ window (from - length xs) (to - length xs) ys
  window-append from to xs ys =
      let e : to - from - length (drop from xs) ≡ to - length xs - (from - length xs) =
        omega (arith, length-drop from xs) in
      ap (take (to - from)) (drop-append from xs ys)
      ∙ take-append (to - from) (drop from xs) (drop (from - length xs) ys)
      ∙ ap (λ (k : ℕ). window from to xs ++ take k (drop (from - length xs) ys)) e

  -- A range of the first `n` bytes, with both ends cut to `n`.
  pub window-take :
      (from to n : ℕ) (xs : List A) → window from to (take n xs) ≡ window (min from n) (min to n) xs
  window-take from to n xs =
      ap (take (to - from)) (drop-take from n xs)
      ∙ take-take (to - from) (n - from) (drop from xs)
      ∙ elim (Bool-cases (ltb n from)) [
        | inl h ↦
            let z : min (to - from) (n - from) ≡ 0 = ground arith in
            let w : min to n - min from n ≡ 0 = ground arith in rw (z, w) refl
        | inr h ↦
            let z : min (to - from) (n - from) ≡ min to n - min from n = ground arith in
            let w : min from n ≡ from = ground arith in rw (z, w) refl
      ]

  pub take-all : (n : ℕ) (xs : List A) → length xs ≤ n → take n xs ≡ xs
  take-all zero [] h = refl
  take-all zero (x ∷ xs) h = absurd (omega arith)
  take-all (suc n) [] h = refl
  take-all (suc n) (x ∷ xs) h = ap (◌∷◌ x) (take-all n xs (omega arith))

  pub window-past :
      (from to : ℕ) (xs ys : List A)
      → to ≤ length xs
      → window from to (xs ++ ys) ≡ window from to xs
  window-past from to xs ys h =
      let e : to - length xs - (from - length xs) ≡ 0 = omega arith in
      window-append from to xs ys
      ∙ ap (λ (k : ℕ). window from to xs ++ take k (drop (from - length xs) ys)) e
      ∙ append-nil _

  pub drop-all : (n : ℕ) (xs : List A) → length xs ≤ n → drop n xs ≡ []
  drop-all zero [] h = refl
  drop-all zero (x ∷ xs) h = absurd (omega arith)
  drop-all (suc n) [] h = refl
  drop-all (suc n) (x ∷ xs) h = drop-all n xs (omega arith)

  -- Taking and dropping within the first of two pieces, and beyond it.
  pub take-within : (n : ℕ) (xs ys : List A) → n ≤ length xs → take n (xs ++ ys) ≡ take n xs
  take-within n xs ys h =
      let e : n - length xs ≡ 0 = omega arith in
      take-append n xs ys ∙ ap (λ (k : ℕ). take n xs ++ take k ys) e ∙ append-nil (take n xs)

  pub drop-within : (n : ℕ) (xs ys : List A) → n ≤ length xs → drop n (xs ++ ys) ≡ drop n xs ++ ys
  drop-within n xs ys h =
      let e : n - length xs ≡ 0 = omega arith in
      drop-append n xs ys ∙ ap (λ (k : ℕ). drop n xs ++ drop k ys) e

  pub take-beyond :
      (n k : ℕ) (xs ys : List A) → n ≡ length xs + k → take n (xs ++ ys) ≡ xs ++ take k ys
  take-beyond n k xs ys h =
      let e : n - length xs ≡ k = omega arith in
      take-append n xs ys
      ∙ ap (λ (zs : List A). zs ++ take (n - length xs) ys) (take-all n xs (omega arith))
      ∙ ap (λ (m : ℕ). xs ++ take m ys) e

  pub drop-beyond : (n k : ℕ) (xs ys : List A) → n ≡ length xs + k → drop n (xs ++ ys) ≡ drop k ys
  drop-beyond n k xs ys h =
      let e : n - length xs ≡ k = omega arith in
      drop-append n xs ys
      ∙ ap (λ (zs : List A). zs ++ drop (n - length xs) ys) (drop-all n xs (omega arith))
      ∙ ap (λ (m : ℕ). drop m ys) e

  -- A range that ends within the first `n` bytes.
  pub window-cut :
      (from to n : ℕ) (xs : List A) → to ≤ n → window from to (take n xs) ≡ window from to xs
  window-cut from to n xs h = window-take from to n xs ∙ elim (Bool-cases (ltb n from)) [
    | inl p ↦
        let z : min to n - min from n ≡ 0 = ground arith in
        let w : to - from ≡ 0 = ground arith in rw (z, w) refl
    | inr p ↦
        let z : min to n ≡ to = omega arith in
        let w : min from n ≡ from = ground arith in rw (z, w) refl
  ]

  -- The range as the source copies it, both ends cut to `n`, and nothing where it is empty.
  pub kept_window :
      (kept : List A) (from to n : ℕ) (xs : List A)
      → (if ltb (min from n) (min to n)
          then kept ++ take (min to n - min from n) (drop (min from n) xs)
          else kept)
        ≡ kept ++ window from to (take n xs)
  kept_window kept from to n xs = elim (Bool-cases (ltb (min from n) (min to n))) [
    | inl h ↦ rw h (ap (◌++◌ kept) (sym (window-take from to n xs)))
    | inr h ↦
        let z : min to n - min from n ≡ 0 = ground arith in
        rw (h, window-take from to n xs, z) (sym (append-nil kept))
  ]
