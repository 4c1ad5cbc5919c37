-- ===== src/Registry/Refines.antt =====
-- A registry is a map from ids to values (registry.rs).
use sandbox_driver.Base.{ℕ, ◌≡◌, refl, ap, ◌∙◌, Option, none, some, List, [], ◌∷◌, if◌then◌else◌}
use sandbox_driver.GitBatch.{texts_equal}
use sandbox_driver.Registry.{Entries, get, removed, insert, into_vacant, try_insert, remove}
use sandbox_driver.Registry.Lookup.{get-removed, get-insert}

pub data Op (A : Type 0) : Type 0 where
  try_inserts inserts : List ℕ → A → Op A
  removes gets : List ℕ → Op A

module _ {A : Type 0} where
  abbrev pub step : Op A → Entries A → Option A × Entries A
  step (try_inserts id value) entries = try_insert id value entries
  step (inserts id value) entries = (none, insert id value entries)
  step (removes id) entries = remove id entries
  step (gets id) entries = (get id entries, entries)

  abbrev pub replies : List (Op A) → Entries A → List (Option A)
  replies [] entries = []
  replies (op ∷ ops) entries = let (r, rest) = step op entries in r ∷ replies ops rest

  -- The map, as a function.
  abbrev pub updated : List ℕ → Option A → (List ℕ → Option A) → List ℕ → Option A
  updated id value m other = if texts_equal other id then value else m other

  abbrev vacant_or : List ℕ → A → (List ℕ → Option A) → Option A → Option A × (List ℕ → Option A)
  vacant_or id value m none = (none, updated id (some value) m)
  vacant_or id value m (some taken) = (some value, m)

  abbrev pub map_step : Op A → (List ℕ → Option A) → Option A × (List ℕ → Option A)
  map_step (try_inserts id value) m = vacant_or id value m (m id)
  map_step (inserts id value) m = (none, updated id (some value) m)
  map_step (removes id) m = (m id, updated id none m)
  map_step (gets id) m = (m id, m)

  abbrev pub map_replies : List (Op A) → (List ℕ → Option A) → List (Option A)
  map_replies [] m = []
  map_replies (op ∷ ops) m = let (r, rest) = map_step op m in r ∷ map_replies ops rest

  abbrev Represents : Entries A → (List ℕ → Option A) → Type 0
  Represents entries m = (id : List ℕ) → get id entries ≡ m id

  insert-Represents :
      (id : List ℕ) (value : A) (entries : Entries A) (m : List ℕ → Option A)
      → Represents entries m
      → Represents (insert id value entries) (updated id (some value) m)
  insert-Represents id value entries m h other =
      get-insert id other value entries
      ∙ ap (λ o. if texts_equal other id then some value else o) (h other)

  removed-Represents :
      (id : List ℕ) (entries : Entries A) (m : List ℕ → Option A)
      → Represents entries m
      → Represents (removed id entries) (updated id none m)
  removed-Represents id entries m h other =
      get-removed id other entries ∙ ap (λ o. if texts_equal other id then none else o) (h other)

  abbrev Simulates : Option A × Entries A → Option A × (List ℕ → Option A) → Type 0
  Simulates (r, entries) (q, m) = (r ≡ q) × Represents entries m

  try_insert-Simulates :
      (id : List ℕ) (value : A) (entries : Entries A) (m : List ℕ → Option A) (found : Option A)
      → Represents entries m
      → Simulates (into_vacant id value entries found) (vacant_or id value m found)
  try_insert-Simulates id value entries m none h = (refl, insert-Represents id value entries m h)
  try_insert-Simulates id value entries m (some taken) h = (refl, h)

  step-Simulates :
      (op : Op A) (entries : Entries A) (m : List ℕ → Option A)
      → Represents entries m
      → Simulates (step op entries) (map_step op m)
  unfolding try_insert remove
  step-Simulates (try_inserts id value) entries m h =
      rw (h id) (try_insert-Simulates id value entries m (m id) h)
  step-Simulates (inserts id value) entries m h = (refl, insert-Represents id value entries m h)
  step-Simulates (removes id) entries m h = (h id, removed-Represents id entries m h)
  step-Simulates (gets id) entries m h = (h id, h)

  replies-Represents :
      (ops : List (Op A)) (entries : Entries A) (m : List ℕ → Option A)
      → Represents entries m
      → replies ops entries ≡ map_replies ops m
  replies-Represents [] entries m h = refl
  replies-Represents (op ∷ ops) entries m h =
      let (r, k) = step-Simulates op entries m h in
      let rest = replies-Represents ops (step op entries).1 (map_step op m).1 k in cc

  -- An empty registry answers any sequence of insertions, removals and look-ups as a map does that is
  -- kept as a function: a taken id keeps its value and hands back the new one, and a removal gives what
  -- was under the id.
  pub replies-map_replies : (ops : List (Op A)) → replies ops [] ≡ map_replies ops (λ id. none)
  unfolding get
  replies-map_replies ops = replies-Represents ops [] (λ id. none) (λ id. refl)
