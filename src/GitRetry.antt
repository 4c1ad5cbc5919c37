-- ===== src/GitRetry.antt =====
-- crates/sandbox-driver/src/git_retry.rs: retry of git operations against a remote. Instants and
-- durations are whole nanoseconds. The retried operation, the wake-up of a sleep and the system
-- clock are the parameter `World`; `f64` is the parameter `Floats`. Between two awaits the clock
-- stands still: the instants of the source's successive readings there are one `now`.
pub mod Decide
pub mod Attempts
pub mod Tests
use sandbox_driver.Base.{
  ℕ, zero, suc, ◌+◌, ◌-◌, ◌*◌, ◌^◌, min, max, Bool, true, false, Option, none, some, List, [], ◌∷◌,
  ◌++◌, String, length, ltb, ◌==◌, if◌then◌else◌,
}
use sandbox_driver.Error.{
  Error, timeout, git, rate_limited, overloaded, GitFailure, GitFailureKind, remote_unavailable,
  auth_rejected, ExecFailure, Termination, exited, Result, ok, err,
}

abbrev pub u32_max : ℕ
u32_max = 2 ^ 32 - 1

-- 60 s
abbrev pub replication_horizon : ℕ
replication_horizon = 60 * 1000000000

pub data GitRetryReason : Type 0 where
  token_replication transient_infra : GitRetryReason

-- `f64::powi` and `Duration::mul_f64`, which panics where the product overflows, is negative or is not
-- finite: `none`.
pub record Floats : Type 1 where
  pub F64 : Type 0
  pub one : F64
  pub powi : F64 → ℕ → F64
  pub mul_f64 : ℕ → F64 → Option ℕ

-- What a `retry_git` call meets outside: `operation attempt timeout now` is what the attempt
-- returns and the instant at which it does; `wake now delay` ends a sleep; `wall` is
-- `SystemTime::now()` at an instant; `latest` is the last instant of an `Instant`, past which an
-- addition panics.
pub record World (T : Type 0) : Type 0 where
  pub operation : ℕ → Option ℕ → ℕ → Result T × ℕ
  pub wake : ℕ → ℕ → ℕ
  pub wall : ℕ → ℕ
  pub latest : ℕ

-- `GitCredentials`: only its mint time matters here.
pub record GitCredentials : Type 0 where
  pub minted_at : Option ℕ

pub data CredentialAge : Type 0 where
  fresh mature static : CredentialAge

-- `CredentialAge::of`, on the mint time of the credentials, if any
abbrev pub of_minted : Option ℕ → ℕ → CredentialAge
of_minted none now = static
of_minted (some minted) now =
    if ltb now minted
    then fresh
    else if ltb (now - minted) replication_horizon
    then fresh
    else mature

abbrev pub minted_of : Option GitCredentials → Option ℕ
minted_of none = none
minted_of (some credentials) = credentials.minted_at

unfoldable pub age_of : Option GitCredentials → ℕ → CredentialAge
age_of credentials now = of_minted (minted_of credentials) now

abbrev pub decide : GitFailureKind → CredentialAge → Option GitRetryReason
decide remote_unavailable age = some transient_infra
decide auth_rejected fresh = some token_replication
decide auth_rejected mature = some transient_infra
decide auth_rejected static = none
decide _ age = none

abbrev pub is_exited : Termination → Bool
is_exited exited = true
is_exited _ = false

-- Whether the failure's command, if it has one, ended by itself.
abbrev pub is_known : Option ExecFailure → Bool
is_known none = true
is_known (some output) = is_exited output.termination

unfoldable pub retry_reason : Error → Option GitCredentials → ℕ → Option GitRetryReason
retry_reason (git failure) credentials now =
    if is_known failure.output then decide failure.kind (age_of credentials now) else none
retry_reason (rate_limited _) credentials now = some transient_infra
retry_reason (overloaded _) credentials now = some transient_infra
retry_reason _ credentials now = none

pub record GitAttempt : Type 0 where
  pub attempt : ℕ
  pub started_at : ℕ
  pub duration : ℕ
  pub retry_reason : Option GitRetryReason
  pub failure : Option Error

-- `Result<GitRetryReport, GitRetryError>`, or a panic behind some attempts.
pub data Retried (T : Type 0) : Type 0 where
  report : T → List GitAttempt → Retried T
  failed : List GitAttempt → Error → Retried T
  panicked : List GitAttempt → Retried T

-- `Option<Duration>`, or a panic.
pub data Delay : Type 0 where
  gives_up panics : Delay
  waits : ℕ → Delay

-- `timeout == Some(Duration::ZERO)`
abbrev pub is_zero : Option ℕ → Bool
is_zero none = false
is_zero (some n) = n == 0

module _ (floats : Floats) where
  pub record GitBackoff : Type 0 where
    pub initial : ℕ
    pub factor : floats.F64
    pub cap : ℕ

  -- `GitBackoff::delay_after`, whose product comes before the cap.
  abbrev at_most : ℕ → Option ℕ → Option ℕ
  at_most cap none = none
  at_most cap (some delay) = some (min delay cap)

  unfoldable pub delay_after : GitBackoff → ℕ → Option ℕ
  delay_after backoff attempt =
      let exponent = min (attempt - 1) (2 ^ 31 - 1) in
      at_most backoff.cap (floats.mul_f64 backoff.initial (floats.powi backoff.factor exponent))

  pub record GitRetryPolicy : Type 0 where
    pub max_attempts : ℕ
    pub backoff : GitBackoff
    pub max_elapsed : Option ℕ
    pub per_attempt_timeout : Option ℕ

  -- `GitRetryPolicy::once`
  abbrev pub once : GitRetryPolicy
  once = record {
    max_attempts = 1;
    backoff = record { initial = 0; factor = floats.one; cap = 0 };
    max_elapsed = none;
    per_attempt_timeout = none;
  }

  abbrev deadline_after : Option ℕ → ℕ → Option ℕ
  deadline_after none start = none
  deadline_after (some longest) start = some (start + longest)

  -- `GitRetryPolicy::deadline`
  abbrev pub deadline : GitRetryPolicy → ℕ → Option ℕ
  deadline policy start = deadline_after policy.max_elapsed start

  abbrev capped : Option ℕ → Option ℕ → ℕ → Option ℕ
  capped (some cap) (some until) now = some (min cap (until - now))
  capped (some cap) none now = some cap
  capped none (some until) now = some (until - now)
  capped none none now = none

  -- `GitRetryPolicy::attempt_timeout`
  unfoldable pub attempt_timeout : GitRetryPolicy → Option ℕ → ℕ → Option ℕ
  attempt_timeout policy until now = capped policy.per_attempt_timeout until now

  abbrev fits : ℕ → Option ℕ → ℕ → Bool
  fits delay none now = true
  fits delay (some until) now = ltb delay (until - now)

  abbrev pub fitting : Option ℕ → Option ℕ → ℕ → Delay
  fitting none until now = panics
  fitting (some delay) until now = if fits delay until now then waits delay else gives_up

  -- `GitRetryPolicy::retry_delay`
  unfoldable pub retry_delay : GitRetryPolicy → ℕ → Option ℕ → ℕ → Delay
  retry_delay policy attempt until now = fitting (delay_after policy.backoff attempt) until now

  -- The `delay` of `retry_git`, from the reason.
  abbrev pub delay_for : GitRetryPolicy → Option GitRetryReason → ℕ → Option ℕ → ℕ → Delay
  delay_for policy none attempt until now = gives_up
  delay_for policy (some reason) attempt until now =
      if ltb attempt (max policy.max_attempts 1)
      then retry_delay policy attempt until now
      else gives_up

  -- Whether the addition of `GitRetryPolicy::deadline` panics.
  abbrev pub overflows : Option ℕ → ℕ → ℕ → Bool
  overflows none start latest = false
  overflows (some longest) start latest = ltb latest (start + longest)

  module _ {T : Type 0} (world : World T) where
    -- The failure arm of `retry_git`: `again` is the loop.
    abbrev pub after_failure :
        (List GitAttempt → ℕ → Option (Retried T))
        → List GitAttempt
        → GitAttempt
        → Error
        → ℕ
        → Delay
        → Option (Retried T)
    after_failure again attempts entry error later gives_up =
        some (failed (attempts ++ (entry ∷ [])) error)
    after_failure again attempts entry error later panics =
        some (panicked (attempts ++ (entry ∷ [])))
    after_failure again attempts entry error later (waits delay) =
        again (attempts ++ (record entry { failure = some error } ∷ [])) (world.wake later delay)

    abbrev pub after_attempt :
        (List GitAttempt → ℕ → Option (Retried T))
        → GitRetryPolicy
        → Option GitCredentials
        → Option ℕ
        → List GitAttempt
        → GitAttempt
        → Result T × ℕ
        → ℕ
        → Option (Retried T)
    after_attempt again policy credentials until attempts entry (ok value, later) now =
        some (report value (attempts ++ (record entry { duration = later - now } ∷ [])))
    after_attempt again policy credentials until attempts entry (err error, later) now =
        let reason = retry_reason error credentials (world.wall later) in
        after_failure again attempts
          (record entry { duration = later - now; retry_reason = reason }) error later
          (delay_for policy reason entry.attempt until later)

    abbrev pub begin : List GitAttempt → ℕ → GitAttempt
    begin attempts now = record {
      attempt = min (length attempts) u32_max + 1;
      started_at = world.wall now;
      duration = 0;
      retry_reason = none;
      failure = none;
    }

    -- The loop of `retry_git` on fuel.
    unfoldable pub retry_loop :
        ℕ
        → GitRetryPolicy
        → Option GitCredentials
        → String
        → ℕ
        → List GitAttempt
        → ℕ
        → Option (Retried T)
    retry_loop zero policy credentials name start attempts now = none
    retry_loop (suc fuel) policy credentials name start attempts now =
        let until = deadline policy start in
        let limit = attempt_timeout policy until now in
        let entry = begin attempts now in
        if is_zero limit
        then some (failed attempts (timeout name (now - start)))
        else after_attempt (retry_loop fuel policy credentials name start) policy credentials until
            attempts entry (world.operation entry.attempt limit now) now

    -- `retry_git`: an attempt more needs an attempt below `max_attempts`, so that many rounds are
    -- enough.
    unfoldable pub retry_git :
        GitRetryPolicy → Option GitCredentials → String → ℕ → Option (Retried T)
    retry_git policy credentials name start =
        if overflows policy.max_elapsed start world.latest
        then some (panicked [])
        else retry_loop (max policy.max_attempts 1) policy credentials name start [] start
