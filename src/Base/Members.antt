-- ===== src/Base/Members.antt =====
-- Lists of numbers as sets: membership, erasure and the number of distinct members.
use Prim.Native.Nat.{ℕ, ◌+◌, ◌≤◌}
use mathlib.Core.Path.{◌≡◌, refl}
use mathlib.Core.Logic.{inl, inr}
use mathlib.Core.Bool.{Bool, true, false, not, ◌&&◌, ◌||◌}
use mathlib.Core.List.{List, [], ◌∷◌, ◌++◌}
use native.Mathlib.Omega.{arith}
use sandbox_driver.Base.Tests.{◌==◌, if◌then◌else◌, Bool-cases}

abbrev pub member : ℕ → List ℕ → Bool
member x [] = false
member x (y ∷ ys) = x == y || member x ys

-- All occurrences go.
abbrev pub erase : ℕ → List ℕ → List ℕ
erase x [] = []
erase x (y ∷ ys) = let rest = erase x ys in if x == y then rest else y ∷ rest

-- How many different members there are.
abbrev pub distinct : List ℕ → ℕ
distinct [] = 0
distinct (x ∷ xs) = let rest = distinct xs in if member x xs then rest else rest + 1

abbrev pub Within : List ℕ → List ℕ → Type 0
Within xs ys = (x : ℕ) → member x xs ≡ true → member x ys ≡ true

pub member-append : (x : ℕ) (xs ys : List ℕ) → member x (xs ++ ys) ≡ (member x xs || member x ys)
member-append x [] ys = refl
member-append x (y ∷ xs) ys = ground (arith, member-append x xs ys)

pub member-erase : (x y : ℕ) (xs : List ℕ) → member x (erase y xs) ≡ (not (x == y) && member x xs)
member-erase x y [] = ground arith
member-erase x y (z ∷ xs) = ground (arith, member-erase x y xs)

member-erase_other :
    (x y : ℕ) (xs : List ℕ) → (x == y) ≡ false → member x (erase y xs) ≡ member x xs
member-erase_other x y xs h = ground (arith, member-erase x y xs)

erase-absent : (y : ℕ) (xs : List ℕ) → member y xs ≡ false → distinct (erase y xs) ≡ distinct xs
erase-absent y [] h = refl
erase-absent y (z ∷ xs) h =
    let i = erase-absent y xs (ground arith) in
    let e = member-erase_other z y xs (ground arith) in ground arith

distinct-erase :
    (y : ℕ) (xs : List ℕ) → member y xs ≡ true → distinct xs ≡ distinct (erase y xs) + 1
distinct-erase y [] h = ground arith
distinct-erase y (z ∷ xs) h = elim (Bool-cases (y == z)) [
  | inl q ↦ elim (Bool-cases (member y xs)) [
    | inl m ↦ let i = distinct-erase y xs m in ground arith
    | inr m ↦ let i = erase-absent y xs m in ground arith
  ]
  | inr q ↦
      let i = distinct-erase y xs (ground arith) in
      let e = member-erase_other z y xs (ground arith) in ground arith
]

-- A subset has at most as many members.
pub distinct-Within : (xs ys : List ℕ) → Within xs ys → distinct xs ≤ distinct ys
distinct-Within [] ys h = omega arith
distinct-Within (x ∷ xs) ys h = elim (Bool-cases (member x xs)) [
  | inl m ↦ rw m (distinct-Within xs ys (λ y k. h y (ground arith)))
  | inr m ↦ rw m (
      let i =
        distinct-Within xs (erase x ys)
          (λ y k. let w = h y (ground arith) in ground (arith, member-erase y x ys)) in
      let e = distinct-erase x ys (h x (ground arith)) in omega arith)
]
