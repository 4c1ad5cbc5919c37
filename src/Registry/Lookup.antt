-- ===== src/Registry/Lookup.antt =====
-- What a registry answers behind a change (registry.rs).
use sandbox_driver.Base.{
  ℕ, ◌≡◌, ◌≢◌, refl, sym, ap, ◌∙◌, inl, inr, Bool-cases, none, some, List, [], ◌∷◌, if◌then◌else◌,
  arith, length, ◌≤◌, ◌+◌, ◌<◌,
}
use sandbox_driver.GitBatch.{texts_equal}
use sandbox_driver.Status.Labels.{texts_equal→≡}
use sandbox_driver.Registry.{Entries, get, removed, insert}

texts_equal_comm : (a b : List ℕ) → texts_equal a b ≡ texts_equal b a
texts_equal_comm [] [] = refl
texts_equal_comm [] (b ∷ t) = refl
texts_equal_comm (a ∷ s) [] = refl
texts_equal_comm (a ∷ s) (b ∷ t) = ground (arith, texts_equal_comm s t)

none-some : {A : Type 0} → (v : A) → none ≢ some v
none-some v h = ground arith

module _ {A : Type 0} where
  pub get-removed :
      (id other : List ℕ) (entries : Entries A)
      → get other (removed id entries) ≡ (if texts_equal other id then none else get other entries)
  unfolding get removed
  get-removed id other [] = elim (Bool-cases (texts_equal other id)) [
    | inl e ↦ rw e refl
    | inr e ↦ rw e refl
  ]
  get-removed id other ((k, v) ∷ entries) =
      let rest = get-removed id other entries in
      elim (Bool-cases (texts_equal id k)) [
        | inl e ↦
            let p = ap (texts_equal other) (texts_equal→≡ id k e) in
            elim (Bool-cases (texts_equal other id)) [
              | inl o ↦ rw (e, o) (rest ∙ rw o refl)
              | inr o ↦ rw (e, sym p, o) (rest ∙ rw o refl)
            ]
        | inr e ↦ elim (Bool-cases (texts_equal other k)) [
          | inl o ↦
              rw
                (
                  e,
                  o,
                  ap (λ x. texts_equal x id) (texts_equal→≡ other k o) ∙ texts_equal_comm k id ∙ e,
                )
                refl
          | inr o ↦ rw (e, o) rest
        ]
      ]

  pub get-insert :
      (id other : List ℕ) (value : A) (entries : Entries A)
      → get other (insert id value entries)
        ≡ (if texts_equal other id then some value else get other entries)
  unfolding get insert
  get-insert id other value entries = elim (Bool-cases (texts_equal other id)) [
    | inl e ↦ rw e refl
    | inr e ↦ rw e (get-removed id other entries ∙ rw e refl)
  ]

  length-removed :
      (id : List ℕ) (entries : Entries A) → length (removed id entries) ≤ length entries
  unfolding removed
  length-removed id [] = omega arith
  length-removed id ((k, v) ∷ entries) = ground (arith, length-removed id entries)

  pub length-insert :
      (id : List ℕ) (value : A) (entries : Entries A)
      → length (insert id value entries) ≤ length entries + 1
  unfolding insert
  length-insert id value entries = omega (arith, length-removed id entries)

  pub length-removed-some :
      (id : List ℕ) (v : A) (entries : Entries A)
      → get id entries ≡ some v
      → length (removed id entries) < length entries
  unfolding get removed
  length-removed-some id v [] h = absurd (none-some v h)
  length-removed-some id v ((k, w) ∷ entries) h = elim (Bool-cases (texts_equal id k)) [
    | inl e ↦ rw e (let l = length-removed id entries in omega arith)
    | inr e ↦ rw e (let l = length-removed-some id v entries (rw e at h) in omega arith)
  ]
