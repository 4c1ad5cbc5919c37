-- ===== src/Grace.antt =====
-- crates/sandbox-driver/src/grace.rs: the TERM, grace, KILL ladder that runs beside a command. Instants
-- and durations are whole nanoseconds. A schedule lists what becomes ready, in order and with its
-- instant: the caller's stops, a tick of the clock, and last the command's own end. The source's comment
-- names a failing sink among what starts the ladder; its `drive` waits for no sink, which the command's
-- own race handles.
pub mod Rungs
pub mod Tests
use sandbox_driver.Base.{
  ℕ, ◌+◌, Bool, true, false, ◌&&◌, ◌||◌, Option, none, some, List, [], ◌∷◌, leb, if◌then◌else◌,
}
use sandbox_driver.Error.{Termination, exited, timed_out, cancelled, killed, Result, ok, err}

pub data Cause : Type 0 where
  cause_timed_out stopped : Cause

-- Where `drive` stands: before the first stop, in the grace until an instant, and behind the kill.
pub data Stage : Type 0 where
  watching : Stage
  waiting : ℕ → Stage
  over : Stage

-- `inner_term` and `inner_kill` are the raw stop tokens of the command.
pub record Ladder : Type 0 where
  pub stage : Stage
  pub inner_term : Bool
  pub inner_kill : Bool
  pub cause : Option Cause

abbrev pub ladder : Ladder
ladder = record { stage = watching; inner_term = false; inner_kill = false; cause = none }

-- The futures that `drive` waits for; `tick` is a sleep's wake-up.
pub data Signal : Type 0 where
  tick term_fired kill_fired : Signal

-- `sleep_or_never`: whether the timeout, if any, is over
abbrev pub is_due : Option ℕ → ℕ → Bool
is_due none now = false
is_due (some until) now = leb until now

abbrev climb : ℕ → ℕ → Cause → Ladder → Ladder
climb grace now cause l = record l {
  stage = waiting (now + grace);
  inner_term = true;
  cause = some cause;
}

-- One resolution of a `select!` of `drive`; `until` is the end of the spec's timeout.
unfoldable pub drive : ℕ → Option ℕ → Stage → ℕ → Signal → Ladder → Ladder
drive grace until watching now tick l =
    if is_due until now then climb grace now cause_timed_out l else l
drive grace until watching now term_fired l = climb grace now stopped l
drive grace until watching now kill_fired l = record l {
  stage = over;
  inner_kill = true;
  cause = some stopped;
}
drive grace until (waiting grace_end) now tick l =
    if leb grace_end now then record l { stage = over; inner_kill = true } else l
drive grace until (waiting grace_end) now kill_fired l = record l {
  stage = over;
  inner_kill = true;
}
drive grace until (waiting grace_end) now term_fired l = l
drive grace until over now signal l = l

-- The ladder over a schedule.
unfoldable pub drive_all : ℕ → Option ℕ → List (ℕ × Signal) → Ladder → Ladder
drive_all grace until [] l = l
drive_all grace until ((now, signal) ∷ later) l =
    drive_all grace until later (drive grace until l.stage now signal l)

abbrev pub is_stopped : Termination → Bool
is_stopped cancelled = true
is_stopped killed = true
is_stopped _ = false

abbrev pub is_timeout : Option Cause → Bool
is_timeout (some cause_timed_out) = true
is_timeout _ = false

-- The termination that `run_with_stop_grace` reports, from the ladder's cause and the command's own.
unfoldable pub reported : Option Cause → Termination → Termination
reported cause termination =
    if is_timeout cause && is_stopped termination then timed_out else termination

abbrev pub passed : Option Cause → Result Termination → Result Termination
passed cause (ok termination) = ok (reported cause termination)
passed cause (err e) = err e

-- `run_with_stop_grace` with a grace: the command, which sees the raw tokens, ends behind the
-- schedule with what `run` gives.
unfoldable pub run_with_stop_grace :
    ℕ → Option ℕ → List (ℕ × Signal) → (Bool → Bool → Result Termination) → Result Termination
run_with_stop_grace grace until schedule run =
    let l = drive_all grace until schedule ladder in passed l.cause (run l.inner_term l.inner_kill)
