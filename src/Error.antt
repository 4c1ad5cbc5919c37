-- ===== src/Error.antt =====
-- crates/sandbox-driver/src/error.rs: the boundary error, and the types that it carries
-- (`Termination` of exec.rs, `Action` of event.rs, `SandboxState` of state.rs). Durations are whole
-- nanoseconds. The `source` fields, which only `Display` and `Error::source` read, and
-- `ProviderError::detail` are left out; a capability is its wire name.
use sandbox_driver.Base.{ℕ, String, ◌≡◌, refl, ap, ◌⊎◌, inl, inr, Bool, true, false, Option, List}

pub data ResourceKind : Type 0 where
  sandbox snapshot volume plugin file unknown : ResourceKind

pub data Action : Type 0 where
  create attach start stop delete activate deactivate pause resume archive fork resize : Action
  snapshot recover undelete refresh_activity set_timers set_labels update_network unknown : Action

pub data SandboxState : Type 0 where
  creating starting running stopping stopped pausing paused resuming archiving : SandboxState
  archived restoring resizing forking snapshotting deleting deleted error unknown : SandboxState

pub data Termination : Type 0 where
  exited timed_out cancelled killed unknown : Termination

pub record AuthError : Type 0 where
  pub provider : String
  pub reason : String

pub record ExecFailure : Type 0 where
  pub label : String
  pub termination : Termination
  pub exit_code : Option ℕ
  pub stdout : List ℕ
  pub stderr : List ℕ
  pub duration : Option ℕ

pub data GitFailureKind : Type 0 where
  auth_rejected remote_unavailable ref_not_found access_denied : GitFailureKind
  target_exists git_unavailable unclassified : GitFailureKind

pub record ProviderError : Type 0 where
  pub provider : String
  pub code : Option String
  pub message : List ℕ
  pub retryable : Bool

pub record GitFailure : Type 0 where
  pub operation : String
  pub kind : GitFailureKind
  pub output : Option ExecFailure
  pub provider : Option ProviderError

pub record IncompleteOperation : Type 0 where
  pub operation : String
  pub output_abandoned : Bool
  pub stop_acknowledged : Bool
  pub termination_confirmed : Bool
  pub cleanup_confirmed : Bool

pub data Error : Type 0 where
  not_found : ResourceKind → String → Error
  not_owned : ResourceKind → String → Error
  read_only : ResourceKind → String → Action → Error
  unsupported : String → Error
  invalid_state : SandboxState → Action → Error
  invalid_spec : String → String → Error
  timeout : String → ℕ → Error
  auth : AuthError → Error
  rate_limited : Option ℕ → Error
  overloaded : String → Error
  limit_exceeded : String → ℕ → Error
  exec : ExecFailure → Error
  git : GitFailure → Error
  provider : ProviderError → Error
  transport : String → Error
  incomplete : IncompleteOperation → Error
  io : String → Error

pub data Result {ℓ} (A : Type ℓ) : Type ℓ where
  ok : A → Result A
  err : Error → Result A

infixl 5 ◌>>=◌
abbrev pub ◌>>=◌ {ℓ κ} : {A : Type ℓ} {B : Type κ} → Result A → (A → Result B) → Result B
ok a >>= f = f a
err e >>= f = err e

abbrev pub is_ok {ℓ} : {A : Type ℓ} → Result A → Bool
is_ok (ok a) = true
is_ok (err e) = false

pub Result-cases {ℓ} :
    {A : Type ℓ} (r : Result A) → ((a : A) × (r ≡ ok a)) ⊎ ((e : Error) × (r ≡ err e))
Result-cases (ok a) = inl (a, refl)
Result-cases (err e) = inr (e, refl)

pub ok_injective {ℓ} : {A : Type ℓ} {a b : A} → ok a ≡ ok b → a ≡ b
ok_injective {a = a} e = ap (λ r. elim r [ ok x ↦ x | err _ ↦ a ]) e
