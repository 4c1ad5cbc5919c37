-- ===== src/GitRetry/Decide.antt =====
-- Which failures are repeated (git_retry.rs).
use sandbox_driver.Base.{
  ℕ, ◌+◌, ◌≤◌, ◌<◌, ◌≡◌, refl, ◌↔◌, inl, inr, true, Option, none, some, String, arith, Bool-cases,
  Option-cases,
}
use sandbox_driver.Error.{
  Error, git, rate_limited, overloaded, GitFailure, GitFailureKind, remote_unavailable,
  auth_rejected, ExecFailure, Termination, exited,
}
use sandbox_driver.GitRetry.{
  GitRetryReason, token_replication, transient_infra, GitCredentials, CredentialAge,
  replication_horizon, minted_of, age_of, decide, is_exited, is_known, retry_reason,
}

-- The credentials were minted at an instant.
abbrev pub IsMinted : Option GitCredentials → ℕ → Type 0
IsMinted c m = (k : GitCredentials) × (c ≡ some k) × (k.minted_at ≡ some m)

-- Credentials minted less than the horizon ago, or in the future.
abbrev pub IsFresh : Option GitCredentials → ℕ → Type 0
IsFresh c now = (m : ℕ) × IsMinted c m × (now < m + replication_horizon)

abbrev pub IsMature : Option GitCredentials → ℕ → Type 0
IsMature c now = (m : ℕ) × IsMinted c m × (m + replication_horizon ≤ now)

-- The command of a failure, if there is one, ended by itself.
abbrev pub HasEnded : Option ExecFailure → Type 0
HasEnded none = Unit
HasEnded (some output) = output.termination ≡ exited

-- The failures worth repeating, and why.
pub data Repeats (credentials : Option GitCredentials) (now : ℕ)
    : Error → GitRetryReason → Type 0 where
  unreachable :
      (f : GitFailure)
      → HasEnded f.output
      → f.kind ≡ remote_unavailable
      → Repeats credentials now (git f) transient_infra
  replicating :
      (f : GitFailure)
      → HasEnded f.output
      → f.kind ≡ auth_rejected
      → IsFresh credentials now
      → Repeats credentials now (git f) token_replication
  blip :
      (f : GitFailure)
      → HasEnded f.output
      → f.kind ≡ auth_rejected
      → IsMature credentials now
      → Repeats credentials now (git f) transient_infra
  limited : (after : Option ℕ) → Repeats credentials now (rate_limited after) transient_infra
  full : (limit : String) → Repeats credentials now (overloaded limit) transient_infra

minted_of-IsMinted : (c : Option GitCredentials) (m : ℕ) → minted_of c ≡ some m → IsMinted c m
minted_of-IsMinted none m h = ground arith
minted_of-IsMinted (some k) m h = (k, refl, h)

IsMinted-minted_of : (c : Option GitCredentials) (m : ℕ) → IsMinted c m → minted_of c ≡ some m
IsMinted-minted_of c m (k, e, h) = rw e h

is_exited-exited : (t : Termination) → is_exited t ≡ true → t ≡ exited
is_exited-exited exited h = refl
is_exited-exited _ h = ground arith

is_known-HasEnded : (o : Option ExecFailure) → is_known o ≡ true → HasEnded o
is_known-HasEnded none h = tt
is_known-HasEnded (some output) h = is_exited-exited output.termination h

HasEnded-is_known : (o : Option ExecFailure) → HasEnded o → is_known o ≡ true
HasEnded-is_known none h = refl
HasEnded-is_known (some output) h = rw h refl

age_of-fresh :
    (c : Option GitCredentials) (now : ℕ) → age_of c now ≡ CredentialAge.fresh → IsFresh c now
unfolding age_of
age_of-fresh c now h = elim (Option-cases (minted_of c)) [
  | inl n ↦ absurd (ground (arith, n))
  | inr (m, n) ↦ (m, minted_of-IsMinted c m n, ground (arith, n))
]

age_of-mature :
    (c : Option GitCredentials) (now : ℕ) → age_of c now ≡ CredentialAge.mature → IsMature c now
unfolding age_of
age_of-mature c now h = elim (Option-cases (minted_of c)) [
  | inl n ↦ absurd (ground (arith, n))
  | inr (m, n) ↦ (m, minted_of-IsMinted c m n, ground (arith, n))
]

fresh-age_of :
    (c : Option GitCredentials) (now : ℕ) → IsFresh c now → age_of c now ≡ CredentialAge.fresh
unfolding age_of
fresh-age_of c now (m, n, h) = rw (IsMinted-minted_of c m n) (ground arith)

mature-age_of :
    (c : Option GitCredentials) (now : ℕ) → IsMature c now → age_of c now ≡ CredentialAge.mature
unfolding age_of
mature-age_of c now (m, n, h) = rw (IsMinted-minted_of c m n) (ground arith)

Repeats-git :
    (f : GitFailure) (kind : GitFailureKind) (age : CredentialAge) (c : Option GitCredentials)
    (now : ℕ) (r : GitRetryReason)
    → HasEnded f.output
    → f.kind ≡ kind
    → age_of c now ≡ age
    → decide kind age ≡ some r
    → Repeats c now (git f) r
Repeats-git f remote_unavailable age c now transient_infra k e a d = unreachable f k e
Repeats-git f auth_rejected CredentialAge.fresh c now token_replication k e a d =
    replicating f k e (age_of-fresh c now a)
Repeats-git f auth_rejected CredentialAge.mature c now transient_infra k e a d =
    blip f k e (age_of-mature c now a)
Repeats-git f _ age c now r k e a d = ground arith

retry_reason_sound :
    (error : Error) (c : Option GitCredentials) (now : ℕ) (r : GitRetryReason)
    → retry_reason error c now ≡ some r
    → Repeats c now error r
unfolding retry_reason
retry_reason_sound (git f) c now r e = elim (Bool-cases (is_known f.output)) [
  | inl k ↦
      Repeats-git f f.kind (age_of c now) c now r (is_known-HasEnded f.output k) refl refl
        (rw k at e)
  | inr k ↦ absurd (ground arith)
]
retry_reason_sound (rate_limited after) c now transient_infra e = limited after
retry_reason_sound (overloaded limit) c now transient_infra e = full limit
retry_reason_sound _ c now r e = ground arith

-- A failure is worth repeating, and for that reason, exactly where `Repeats` says so: the remote
-- could not be reached, or it rejected credentials minted less than a minute ago (replication) or
-- earlier (a service blip), or a limit was hit; never one whose git command did not end by itself.
pub retry_reason_iff :
    (error : Error) (c : Option GitCredentials) (now : ℕ) (r : GitRetryReason)
    → (retry_reason error c now ≡ some r) ↔ Repeats c now error r
unfolding retry_reason
retry_reason_iff error c now r = (retry_reason_sound error c now r, complete error r)
  where
    complete :
        (error : Error) (r : GitRetryReason)
        → Repeats c now error r
        → retry_reason error c now ≡ some r
    complete _ _ (unreachable f k e) = rw (HasEnded-is_known f.output k, e)
    complete _ _ (replicating f k e h) = rw (HasEnded-is_known f.output k, e, fresh-age_of c now h)
    complete _ _ (blip f k e h) = rw (HasEnded-is_known f.output k, e, mature-age_of c now h)
    complete _ _ (limited after) = refl
    complete _ _ (full limit) = refl
