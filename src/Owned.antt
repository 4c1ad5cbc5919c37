-- ===== src/Owned.antt =====
-- crates/sandbox-driver/src/owned.rs: `Ownership` and `OwnedProvider`. The provider underneath is an
-- interface over the state of its backend; events, and the methods that only pass a call on (kind,
-- capabilities, health, snapshots, volumes), are left out, as are the fields of a spec and a filter
-- that only travel.
pub mod Stamps
pub mod Scope
pub mod Tests
use sandbox_driver.Base.{
  ℕ, Bool, true, false, ◌&&◌, Option, none, some, List, [], ◌∷◌, String, if◌then◌else◌,
}
use sandbox_driver.Error.{ResourceKind, sandbox, Error, not_found, not_owned, Result, ok, err}
use sandbox_driver.GitBatch.{texts_equal}
use sandbox_driver.Status.{Labels, get, insert, SandboxStatus}

pub record Ownership : Type 0 where
  pub labels : Labels

abbrev pub nobody : Ownership
nobody = record { labels = [] }

unfoldable pub and_label : List ℕ → List ℕ → Ownership → Ownership
and_label key value o = record { labels = insert key value o.labels }

unfoldable pub label : List ℕ → List ℕ → Ownership
label key value = and_label key value nobody

abbrev pub has_value : List ℕ → Option (List ℕ) → Bool
has_value value none = false
has_value value (some v) = texts_equal v value

abbrev pub carries : Labels → Labels → Bool
carries [] labels = true
carries ((key, value) ∷ own) labels = has_value value (get key labels) && carries own labels

unfoldable pub owns : Ownership → Labels → Bool
owns o labels = carries o.labels labels

abbrev pub stamped : Labels → Labels → Labels
stamped [] labels = labels
stamped ((key, value) ∷ own) labels = stamped own (insert key value labels)

unfoldable pub stamp : Ownership → Labels → Labels
stamp o labels = stamped o.labels labels

pub record SandboxSpec : Type 0 where
  pub name : Option (List ℕ)
  pub labels : Labels

pub record SandboxFilter : Type 0 where
  pub labels : Labels

-- The provider underneath: its methods over the backend's state `S`, and those of its handles `H`.
pub record SandboxProvider (S H : Type 0) : Type 0 where
  pub create : SandboxSpec → S → Result H × S
  pub attach : String → S → Result H × S
  pub undelete : String → S → Result H × S
  pub list : SandboxFilter → S → Result (List SandboxStatus) × S
  pub handle_id : H → String
  pub describe : H → S → Result SandboxStatus × S
  pub delete : H → S → Result {0} Unit × S

-- An id that nobody knows is deleted already.
abbrev pub unless_gone : Error → Result {0} Unit
unless_gone (not_found sandbox id) = ok tt
unless_gone e = err e

module _ {S H : Type 0} (o : Ownership) (inner : SandboxProvider S H) where
  abbrev pub on_described : H → Result SandboxStatus × S → Result H × S
  on_described handle (err e, s) = (err e, s)
  on_described handle (ok status, s) =
      if owns o status.labels
      then (ok handle, s)
      else (err (not_owned sandbox (inner.handle_id handle)), s)

  unfoldable pub checked : H → S → Result H × S
  checked handle s = on_described handle (inner.describe handle s)

  abbrev pub then_checked : Result H × S → Result H × S
  then_checked (err e, s) = (err e, s)
  then_checked (ok handle, s) = checked handle s

  unfoldable pub create : SandboxSpec → S → Result H × S
  create spec s = inner.create (record spec { labels = stamp o spec.labels }) s

  unfoldable pub attach : String → S → Result H × S
  attach id s = then_checked (inner.attach id s)

  unfoldable pub undelete : String → S → Result H × S
  undelete id s = then_checked (inner.undelete id s)

  abbrev pub on_attached : Result H × S → Result {0} Unit × S
  on_attached (ok handle, s) = inner.delete handle s
  on_attached (err e, s) = (unless_gone e, s)

  unfoldable pub delete : String → S → Result {0} Unit × S
  delete id s = on_attached (attach id s)

  abbrev pub retained : List SandboxStatus → List SandboxStatus
  retained [] = []
  retained (status ∷ statuses) =
      let rest = retained statuses in if owns o status.labels then status ∷ rest else rest

  abbrev pub on_listed : Result (List SandboxStatus) × S → Result (List SandboxStatus) × S
  on_listed (err e, s) = (err e, s)
  on_listed (ok statuses, s) = (ok (retained statuses), s)

  unfoldable pub list : SandboxFilter → S → Result (List SandboxStatus) × S
  list filter s = on_listed (inner.list (record filter { labels = stamp o filter.labels }) s)
