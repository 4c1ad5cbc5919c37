-- ===== src/Drain.antt =====
-- crates/sandbox-driver/src/drain.rs: `drain_with_stops`, the race of a command's output with the
-- stops. Instants and durations are whole nanoseconds. A schedule lists the futures of the
-- `select!` in the order in which they become ready, each with its instant; a branch whose guard is
-- false is disabled, so its future is passed over. `StopLevel` is exec.rs.
pub mod Stops
pub mod Verdict
pub mod Tests
use sandbox_driver.Base.{
  ℕ, ◌+◌, Bool, true, false, not, ◌&&◌, Option, none, some, List, [], ◌∷◌, ◌++◌, length, leb,
  if◌then◌else◌,
}
use sandbox_driver.Error.{Error, Result, ok, err, Termination, exited, timed_out, cancelled, killed}

pub data StopLevel : Type 0 where
  term kill : StopLevel

-- `StopLevel::termination`
abbrev pub level_termination : StopLevel → Termination
level_termination term = cancelled
level_termination kill = killed

pub data StopPhase : Type 0 where
  running term_sent : StopPhase
  kill_sent : ℕ → StopPhase

-- `StopPhase::kill_sent`
abbrev pub is_kill_sent : StopPhase → Bool
is_kill_sent (kill_sent _) = true
is_kill_sent _ = false

abbrev pub is_running : StopPhase → Bool
is_running running = true
is_running _ = false

-- `StopPhase::after_kill`
abbrev pub after_kill : ℕ → ℕ → StopPhase
after_kill grace now = kill_sent (now + grace)

-- `StopPhase::stop_sent`
abbrev pub stop_sent : StopPhase → Option StopLevel
stop_sent running = none
stop_sent term_sent = some term
stop_sent (kill_sent _) = some kill

-- `drain_until`: the guard of the last branch, at an instant
abbrev pub is_expired : StopPhase → ℕ → Bool
is_expired (kill_sent drain_until) now = leb drain_until now
is_expired _ now = false

-- The futures of the `select!`.
pub data Ready (T : Type 0) : Type 0 where
  drained : T → Ready T
  sink_failed termed kill_fired deadline drain_timeout : Ready T

pub record DrainOutcome (T : Type 0) : Type 0 where
  pub termination : Termination
  pub drained : Option T
  pub stop_sent : Option StopLevel

-- The variables of the race; `sent` is the calls of `stop` so far.
pub record Race : Type 0 where
  pub termination : Termination
  pub phase : StopPhase
  pub sent : List StopLevel

abbrev pub start : Race
start = record { termination = exited; phase = running; sent = [] }

-- What a call comes to, with the calls of `stop`: `pending` while no future is ready.
pub data Raced (T : Type 0) : Type 0 where
  outcome : DrainOutcome T → List StopLevel → Raced T
  broke : Error → List StopLevel → Raced T
  pending : Race → Raced T

-- `stop`: the call with a given number of calls before it.
pub record Stopper : Type 0 where
  pub stop : ℕ → StopLevel → Result {0} Unit

module _ (stopper : Stopper) {T : Type 0} where
  -- The `?` on what `stop` answered.
  abbrev pub answered : (Race → Raced T) → Race → Result {0} Unit → Raced T
  answered next race (ok _) = next race
  answered next race (err e) = broke e race.sent

  -- `stop(level).await?`, and what follows.
  abbrev pub send : (Race → Raced T) → StopLevel → Race → Raced T
  send next level race =
      answered next (record race { sent = race.sent ++ (level ∷ []) })
        (stopper.stop (length race.sent) level)

  -- Behind the loop.
  unfoldable pub finish : Bool → Option T → Race → Raced T
  finish failed output race =
      if failed && not (is_kill_sent race.phase)
      then send
          (λ race.
            outcome
              (record { termination = race.termination; drained = output; stop_sent = some kill })
              race.sent)
          kill (record race { termination = cancelled })
      else outcome
          (record {
            termination = race.termination;
            drained = output;
            stop_sent = stop_sent race.phase;
          })
          race.sent

  -- One round of the `select!`: `next` is the loop, `done` what follows it.
  unfoldable pub select :
      ℕ → (Race → Raced T) → (Option T → Race → Raced T) → ℕ → Ready T → Race → Raced T
  select grace next done now (drained output) race = done (some output) race
  select grace next done now sink_failed race =
      if is_kill_sent race.phase
      then next race
      else send next kill (record race { termination = cancelled; phase = after_kill grace now })
  select grace next done now termed race =
      if is_running race.phase
      then send next term (record race { termination = cancelled; phase = term_sent })
      else next race
  select grace next done now kill_fired race =
      if is_kill_sent race.phase
      then next race
      else send next kill (record race { termination = killed; phase = after_kill grace now })
  select grace next done now deadline race =
      if is_kill_sent race.phase
      then next race
      else send next kill (record race { termination = timed_out; phase = after_kill grace now })
  select grace next done now drain_timeout race =
      if is_expired race.phase now then done none race else next race

  -- The loop; `failed` is whether the sink has failed when the loop ends.
  unfoldable pub race_on : ℕ → Bool → List (ℕ × Ready T) → Race → Raced T
  race_on grace failed [] race = pending race
  race_on grace failed ((now, ready) ∷ later) race =
      select grace (race_on grace failed later) (finish failed) now ready race

  unfoldable pub drain_with_stops : ℕ → Bool → List (ℕ × Ready T) → Raced T
  drain_with_stops grace failed schedule = race_on grace failed schedule start
