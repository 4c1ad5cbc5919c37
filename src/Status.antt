-- ===== src/Status.antt =====
-- crates/sandbox-driver/src/state.rs: `SandboxStatus` and the settled states. Labels are a map from
-- texts to texts, kept as the list of its entries; the fields that nothing here reads (resources, kind,
-- region, image, snapshot, network, workspace, web address and times) are left out.
pub mod Labels
pub mod Tests
use sandbox_driver.Base.{
  ℕ, Bool, true, false, ◌&&◌, Option, none, some, List, [], ◌∷◌, ◌==◌, if◌then◌else◌,
}
use sandbox_driver.Error.{
  SandboxState, creating, starting, running, stopping, stopped, pausing, paused, resuming,
  archiving, archived, restoring, resizing, forking, snapshotting, deleting, deleted, error,
  unknown,
}
use sandbox_driver.GitBatch.{texts_equal}

abbrev pub Labels : Type 0
Labels = List (List ℕ × List ℕ)

-- `BTreeMap::get` and `BTreeMap::insert`
unfoldable pub get : List ℕ → Labels → Option (List ℕ)
get key [] = none
get key ((k, v) ∷ labels) = let rest = get key labels in if texts_equal key k then some v else rest

unfoldable pub insert : List ℕ → List ℕ → Labels → Labels
insert key value [] = (key, value) ∷ []
insert key value ((k, v) ∷ labels) =
    let rest = insert key value labels in
    if texts_equal key k then (k, value) ∷ labels else (k, v) ∷ rest

unfoldable pub is_stable : SandboxState → Bool
is_stable running = true
is_stable stopped = true
is_stable paused = true
is_stable archived = true
is_stable deleted = true
is_stable error = true
is_stable _ = false

-- The order of the variants, by which the derived equality compares.
abbrev discriminant : SandboxState → ℕ
discriminant creating = 0
discriminant starting = 1
discriminant running = 2
discriminant stopping = 3
discriminant stopped = 4
discriminant pausing = 5
discriminant paused = 6
discriminant resuming = 7
discriminant archiving = 8
discriminant archived = 9
discriminant restoring = 10
discriminant resizing = 11
discriminant forking = 12
discriminant snapshotting = 13
discriminant deleting = 14
discriminant deleted = 15
discriminant error = 16
discriminant unknown = 17

abbrev pub states_equal : SandboxState → SandboxState → Bool
states_equal a b = discriminant a == discriminant b

pub record SandboxStatus : Type 0 where
  pub id : List ℕ
  pub name : Option (List ℕ)
  pub state : SandboxState
  pub provider_state : List ℕ
  pub error_reason : Option (List ℕ)
  pub labels : Labels

unfoldable pub new : List ℕ → SandboxState → SandboxStatus
new id state = record {
  id = id;
  name = none;
  state = state;
  provider_state = [];
  error_reason = none;
  labels = [];
}
