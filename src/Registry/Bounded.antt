-- ===== src/Registry/Bounded.antt =====
-- The bound of a registry that evicts (registry.rs).
use sandbox_driver.Base.{
  ℕ, ◌≤◌, ◌<◌, ◌≡◌, ◌≢◌, refl, sym, ap, ◌∙◌, ◌⊎◌, inl, inr, true, false, Bool-cases, Option, none,
  some, List, length, leb, arith,
}
use sandbox_driver.GitBatch.{texts_equal}
use sandbox_driver.Status.Labels.{texts_equal_refl}
use sandbox_driver.Registry.{Entries, get, removed, insert, is_some, without, insert_bounded}
use sandbox_driver.Registry.Lookup.{get-insert, length-insert, length-removed-some}

Option-cases : {A : Type 0} → (o : Option A) → (o ≡ none) ⊎ ((v : A) × (o ≡ some v))
Option-cases none = inl refl
Option-cases (some v) = inr (v, refl)

false-true : false ≢ true
false-true h = ground arith

module _ {A : Type 0} where
  -- Where there are entries, the key that the map lists first is one of theirs.
  abbrev pub IsPresent : (Entries A → Option (List ℕ)) → Type 0
  IsPresent first_key =
      (entries : Entries A)
      → 0 < length entries
      → (id : List ℕ) × (value : A) × (first_key entries ≡ some id) × (get id entries ≡ some value)

  insert_present :
      (id : List ℕ) (value : A) (entries : Entries A)
      → is_some (get id entries) ≡ true
      → length (insert id value entries) ≤ length entries
  unfolding insert
  insert_present id value entries h = elim (Option-cases (get id entries)) [
    | inl e ↦ absurd (false-true (ap is_some (sym e) ∙ h))
    | inr (v, e) ↦ let l = length-removed-some id v entries e in omega arith
  ]

  get-insert_same :
      (id : List ℕ) (value : A) (entries : Entries A)
      → get id (insert id value entries) ≡ some value
  get-insert_same id value entries = get-insert id id value entries ∙ rw (texts_equal_refl id) refl

  get-insert_other :
      (id other : List ℕ) (value : A) (entries : Entries A)
      → texts_equal other id ≡ false
      → get other (insert id value entries) ≡ get other entries
  get-insert_other id other value entries h = get-insert id other value entries ∙ rw h refl

  evicted :
      (id : List ℕ) (value : A) (max : ℕ) (entries : Entries A) (first : Option (List ℕ))
      (oldest : List ℕ) (v : A)
      → length entries ≤ max
      → first ≡ some oldest
      → get oldest entries ≡ some v
      → length (insert id value (without first entries)) ≤ max
  evicted id value max entries first oldest v h f g = rw f (
      let i = length-insert id value (removed oldest entries) in
      let l = length-removed-some oldest v entries g in omega arith)

  -- A bounded insertion keeps the bound and puts the value in. Another entry is lost at most where the
  -- registry was full and had no entry under the id.
  pub insert_bounded-Keeps :
      (first_key : Entries A → Option (List ℕ)) (id other : List ℕ) (value : A) (max : ℕ)
      (entries : Entries A)
      → IsPresent first_key
      → 0 < max
      → length entries ≤ max
      → texts_equal other id ≡ false
      → let after = insert_bounded first_key id value max entries in
        (length after ≤ max)
        × (get id after ≡ some value)
        × ((get other after ≡ get other entries)
            ⊎ ((length entries ≡ max) × (is_some (get id entries) ≡ false)))
  unfolding insert_bounded
  insert_bounded-Keeps first_key id other value max entries p m h o =
      elim (Bool-cases (is_some (get id entries))) [
        | inl e ↦
            let l = insert_present id value entries e in
            rw e (
              omega arith,
              get-insert_same id value entries,
              inl (get-insert_other id other value entries o),
            )
        | inr e ↦ elim (Bool-cases (leb max (length entries))) [
          | inl f ↦
              let full : length entries ≡ max = ground arith in
              let (oldest, v, k, g) = p entries (omega arith) in
              rw (e, f)
                (
                  evicted id value max entries (first_key entries) oldest v h k g,
                  get-insert_same id value (without (first_key entries) entries),
                  inr (full, refl),
                )
          | inr f ↦
              let room : length entries < max = ground arith in
              let l = length-insert id value entries in
              rw (e, f)
                (
                  omega arith,
                  get-insert_same id value entries,
                  inl (get-insert_other id other value entries o),
                )
        ]
      ]
