-- ===== src/GitDiff/Fields.antt =====
-- Fields that are printed one after the other (parse.rs).
use sandbox_driver.Base.{ℕ, zero, suc, ◌≤◌, ◌≡◌, refl, List, [], ◌∷◌, ◌++◌, length, ==_refl, arith}
use sandbox_driver.Error.{Result}
use sandbox_driver.GitBatch.Fields.{Without}
use sandbox_driver.GitDiff.{split, Loop, fields_loop}

pub split-found :
    (c : ℕ) (text rest : List ℕ)
    → Without c text
    → split c (text ++ (c ∷ rest)) ≡ text ∷ split c rest
unfolding split
split-found c [] rest h = rw (==_refl c) refl
split-found c (b ∷ text) rest (p, h) = rw (p, split-found c text rest h) refl

pub split-last : (c : ℕ) (text : List ℕ) → Without c text → split c text ≡ text ∷ []
unfolding split
split-last c [] h = refl
split-last c (b ∷ text) (p, h) = rw (p, split-last c text h) refl

-- A round that hands the loop only what is left of its fields.
abbrev pub IsLocal : {E : Type 0} → (Loop E → List ℕ → List (List ℕ) → Result (List E)) → Type 0
IsLocal {E = E} round =
    (f g : Loop E) (header : List ℕ) (fields : List (List ℕ))
    → ((rest : List (List ℕ)) → length rest ≤ length fields → f rest ≡ g rest)
    → round f header fields ≡ round g header fields

-- Then any fuel that is no less than the number of fields gives the same.
pub fields_loop-enough :
    {E : Type 0} (round : Loop E → List ℕ → List (List ℕ) → Result (List E)) (m n : ℕ)
    (fields : List (List ℕ))
    → IsLocal round
    → length fields ≤ m
    → length fields ≤ n
    → fields_loop round m fields ≡ fields_loop round n fields
unfolding fields_loop
fields_loop-enough round m n [] l h k = refl
fields_loop-enough round zero n (f ∷ fields) l h k = absurd (omega arith)
fields_loop-enough round (suc m) zero (f ∷ fields) l h k = absurd (omega arith)
fields_loop-enough round (suc m) (suc n) ([] ∷ fields) l h k =
    fields_loop-enough round m n fields l (omega arith) (omega arith)
fields_loop-enough round (suc m) (suc n) ((b ∷ f) ∷ fields) l h k =
    l (fields_loop round m) (fields_loop round n) (b ∷ f) fields
      (λ rest i. fields_loop-enough round m n rest l (omega arith) (omega arith))

pub split-nil : split 0 [] ≡ [] ∷ []
unfolding split
split-nil = refl

pub no_fields : length (split 0 []) ≡ 1
unfolding split
no_fields = refl
