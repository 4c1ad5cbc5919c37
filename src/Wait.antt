-- ===== src/Wait.antt =====
-- crates/sandbox-driver/src/wait.rs: the two polling loops. What the provider answers at each poll, and
-- the time that has passed by then, are functions of the poll's number; times are whole nanoseconds. A
-- wait without a deadline may go on for ever, so a loop takes fuel: how many polls it is watched for.
pub mod Verdicts
pub mod Tests
use sandbox_driver.Base.{
  ℕ, zero, suc, String, Bool, true, false, ◌&&◌, ◌||◌, Option, none, some, List, leb, if◌then◌else◌,
}
use sandbox_driver.Error.{
  SandboxState, stopped, deleted, error, Error, timeout, provider, ProviderError, Result, ok, err,
}
use sandbox_driver.GitFailures.{bytes_of}
use sandbox_driver.Status.{SandboxStatus, is_stable, states_equal}

pub record WaitOptions : Type 0 where
  pub interval : ℕ
  pub deadline : Option ℕ

-- `Sandbox::describe` and `Instant::elapsed`, by the number of the poll.
pub record Polls : Type 0 where
  pub describe : ℕ → Result SandboxStatus
  pub elapsed : ℕ → ℕ

abbrev pub overdue : String → Option ℕ → ℕ → Option (Result SandboxStatus)
overdue operation none elapsed = none
overdue operation (some deadline) elapsed =
    if leb deadline elapsed then some (err (timeout operation elapsed)) else none

abbrev pub settled : String → Option ℕ → ℕ → SandboxStatus → Option (Result SandboxStatus)
settled operation deadline elapsed status =
    if is_stable status.state then some (ok status) else overdue operation deadline elapsed

-- A round of `wait_for_stable_state`: what it returns, or nothing, where it sleeps and goes on.
unfoldable pub stable_round : Option ℕ → ℕ → Result SandboxStatus → Option (Result SandboxStatus)
stable_round deadline elapsed (err e) = some (err e)
stable_round deadline elapsed (ok status) =
    settled "waiting for a stable state" deadline elapsed status

unfoldable pub reached : SandboxState → SandboxState → Bool
reached target state =
    states_equal state target || (states_equal target stopped && states_equal state deleted)

abbrev reason_of : Option (List ℕ) → List ℕ
reason_of none = bytes_of "sandbox entered the error state"
reason_of (some reason) = reason

abbrev pub entered_error : SandboxStatus → Error
entered_error status = provider (record {
  provider = "unknown";
  code = none;
  message = reason_of status.error_reason;
  retryable = false;
})

-- A round of `wait_for_state`.
abbrev pub on_status : SandboxState → Option ℕ → ℕ → SandboxStatus → Option (Result SandboxStatus)
on_status target deadline elapsed status =
    if reached target status.state
    then some (ok status)
    else if states_equal status.state error
    then some (err (entered_error status))
    else overdue "waiting for state" deadline elapsed

unfoldable pub state_round :
    SandboxState → Option ℕ → ℕ → Result SandboxStatus → Option (Result SandboxStatus)
state_round target deadline elapsed (err e) = some (err e)
state_round target deadline elapsed (ok status) = on_status target deadline elapsed status

abbrev pub or_else :
    Option (Result SandboxStatus) → Option (Result SandboxStatus) → Option (Result SandboxStatus)
or_else (some r) later = some r
or_else none later = later

-- The loop, from a poll on; nothing where it still waits when the fuel is used up.
unfoldable pub poll_loop :
    (ℕ → Result SandboxStatus → Option (Result SandboxStatus))
    → Polls
    → ℕ
    → ℕ
    → Option (Result SandboxStatus)
poll_loop round polls zero poll = none
poll_loop round polls (suc fuel) poll =
    or_else (round (polls.elapsed poll) (polls.describe poll))
      (poll_loop round polls fuel (suc poll))

unfoldable pub wait_for_stable_state : WaitOptions → Polls → ℕ → Option (Result SandboxStatus)
wait_for_stable_state options polls fuel = poll_loop (stable_round options.deadline) polls fuel 0

unfoldable pub wait_for_state :
    SandboxState → WaitOptions → Polls → ℕ → Option (Result SandboxStatus)
wait_for_state target options polls fuel =
    poll_loop (state_round target options.deadline) polls fuel 0
