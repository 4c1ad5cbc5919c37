-- ===== src/Registry.antt =====
-- crates/sandbox-driver-protocol/src/server/registry.rs: `Registry`, the string-keyed map of what a
-- plugin holds for the host. The hash map is the list of its entries; which key it lists first is an
-- argument.
pub mod Lookup
pub mod Refines
pub mod Bounded
pub mod Tests
use sandbox_driver.Base.{
  ℕ, Bool, true, false, not, ◌&&◌, Option, none, some, List, [], ◌∷◌, length, leb, if◌then◌else◌,
  map,
}
use sandbox_driver.GitBatch.{texts_equal}

abbrev pub Entries : Type 0 → Type 0
Entries A = List (List ℕ × A)

module _ {A : Type 0} where
  -- `HashMap::get`, `remove` and `insert`
  unfoldable pub get : List ℕ → Entries A → Option A
  get id [] = none
  get id ((k, v) ∷ entries) = let rest = get id entries in if texts_equal id k then some v else rest

  unfoldable pub removed : List ℕ → Entries A → Entries A
  removed id [] = []
  removed id ((k, v) ∷ entries) =
      let rest = removed id entries in if texts_equal id k then rest else (k, v) ∷ rest

  unfoldable pub insert : List ℕ → A → Entries A → Entries A
  insert id value entries = (id, value) ∷ removed id entries

  abbrev pub is_some : Option A → Bool
  is_some none = false
  is_some (some v) = true

  -- The value comes back where the id is taken.
  abbrev pub into_vacant : List ℕ → A → Entries A → Option A → Option A × Entries A
  into_vacant id value entries none = (none, insert id value entries)
  into_vacant id value entries (some taken) = (some value, entries)

  unfoldable pub try_insert : List ℕ → A → Entries A → Option A × Entries A
  try_insert id value entries = into_vacant id value entries (get id entries)

  unfoldable pub remove : List ℕ → Entries A → Option A × Entries A
  remove id entries = (get id entries, removed id entries)

  abbrev pub without : Option (List ℕ) → Entries A → Entries A
  without none entries = entries
  without (some oldest) entries = removed oldest entries

  unfoldable pub insert_bounded :
      (Entries A → Option (List ℕ)) → List ℕ → A → ℕ → Entries A → Entries A
  insert_bounded first_key id value max entries =
      if not (is_some (get id entries)) && leb max (length entries)
      then insert id value (without (first_key entries) entries)
      else insert id value entries

  unfoldable pub drain : Entries A → List A × Entries A
  drain entries = (map (λ e. e.1) entries, [])
