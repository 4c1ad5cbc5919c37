-- ===== src/Status/Labels.antt =====
-- The laws of a label map (state.rs).
use sandbox_driver.Base.{
  ℕ, ◌≡◌, refl, sym, ap, ◌∙◌, inl, inr, true, false, some, List, [], ◌∷◌, ==_iff, ==_refl,
  Bool-cases, arith,
}
use sandbox_driver.GitBatch.{texts_equal}
use sandbox_driver.Status.{Labels, get, insert}

pub texts_equal_refl : (s : List ℕ) → texts_equal s s ≡ true
texts_equal_refl [] = refl
texts_equal_refl (b ∷ s) = rw (==_refl b, texts_equal_refl s) refl

pub texts_equal→≡ : (s t : List ℕ) → texts_equal s t ≡ true → s ≡ t
texts_equal→≡ [] [] h = refl
texts_equal→≡ [] (b ∷ t) h = ground arith
texts_equal→≡ (a ∷ s) [] h = ground arith
texts_equal→≡ (a ∷ s) (b ∷ t) h =
    let e = (==_iff a b).0 (ground arith) in let i = texts_equal→≡ s t (ground arith) in cc

pub get-insert_same :
    (key value : List ℕ) (labels : Labels) → get key (insert key value labels) ≡ some value
unfolding get insert
get-insert_same key value [] = rw (texts_equal_refl key) refl
get-insert_same key value ((k, v) ∷ labels) = elim (Bool-cases (texts_equal key k)) [
  | inl e ↦ rw (e, e) refl
  | inr e ↦ rw (e, e) (get-insert_same key value labels)
]

pub get-insert_other :
    (other key value : List ℕ) (labels : Labels)
    → texts_equal other key ≡ false
    → get other (insert key value labels) ≡ get other labels
unfolding get insert
get-insert_other other key value [] h = rw h refl
get-insert_other other key value ((k, v) ∷ labels) h = elim (Bool-cases (texts_equal key k)) [
  | inl e ↦
      let q = texts_equal→≡ key k e in
      let n : texts_equal other k ≡ false = ap (texts_equal other) (sym q) ∙ h in rw (e, n) refl
  | inr e ↦ elim (Bool-cases (texts_equal other k)) [
    | inl o ↦ rw (e, o) refl
    | inr o ↦ rw (e, o) (get-insert_other other key value labels h)
  ]
]
