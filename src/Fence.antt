-- ===== src/Fence.antt =====
-- crates/sandbox-driver-host/src/fence/sentinel.rs: the process groups of a host sandbox. A sentinel is
-- the unreaped child that pins its group's id, so a `Pin::Held` needs no more than that; ids are
-- positive. `killpg`, the observation of the process table, the reaping of a child and the record
-- directories are the system's: what they answer is an argument. A mutex makes each method of
-- `PinnedGroup` one step, and one drain runs at a time.
pub mod Groups
pub mod Pins
pub mod Kills
pub mod Drains
pub mod Tests
use sandbox_driver.Base.{
  ℕ, zero, suc, ◌+◌, Bool, true, false, not, ◌&&◌, Option, none, some, List, [], ◌∷◌, ◌++◌, map,
  member, String, if◌then◌else◌,
}
use sandbox_driver.Error.{Error, io, provider, ProviderError, Result, ok, err}
use sandbox_driver.GitFailures.{bytes_of}

pub data Pin : Type 0 where
  held reaping reaped : Pin

pub record PinnedGroup : Type 0 where
  pub pgid : ℕ
  pub pin : Pin

pub data Signal : Type 0 where
  sigterm sigkill : Signal

unfoldable pub is_pinned : PinnedGroup → Bool
is_pinned g = elim g.pin [ held ↦ true | reaping ↦ false | reaped ↦ false ]

-- `PinnedGroup::signal`: the call of `killpg`, where the id is pinned, and its result, for which a group
-- that is gone is no error.
unfoldable pub signal :
    (ℕ → Signal → Result {0} Unit) → Signal → PinnedGroup → Option (Result {0} Unit)
signal killpg s g = if is_pinned g then some (killpg g.pgid s) else none

-- `take_for_reap`: whether the child was taken, and what is left.
unfoldable pub take_for_reap : PinnedGroup → Bool × PinnedGroup
take_for_reap g = if is_pinned g then (true, record g { pin = reaping }) else (false, g)

unfoldable pub restore : PinnedGroup → PinnedGroup
restore g = record g { pin = held }

unfoldable pub mark_reaped : PinnedGroup → PinnedGroup
mark_reaped g = record g { pin = reaped }

-- The `signals` of a round of `kill_owned_groups`.
abbrev pub signalled :
    ℕ → Option (Result {0} Unit) → List (ℕ × Result {0} Unit) → List (ℕ × Result {0} Unit)
signalled pgid none rest = rest
signalled pgid (some r) rest = (pgid, r) ∷ rest

abbrev pub signal_all :
    (ℕ → Signal → Result {0} Unit) → List PinnedGroup → List (ℕ × Result {0} Unit)
signal_all killpg [] = []
signal_all killpg (g ∷ groups) =
    signalled g.pgid (signal killpg sigkill g) (signal_all killpg groups)

-- Whether a signalled group is live; a failed signal counts only there.
abbrev pub live_member : Result {0} Unit → Result Bool → Result Bool
live_member (err e) rest = err e
live_member (ok u) (err e) = err e
live_member (ok u) (ok live) = ok true

unfoldable pub observe : List ℕ → List (ℕ × Result {0} Unit) → Result Bool
observe live_groups [] = ok false
observe live_groups ((pgid, r) ∷ signals) =
    let rest = observe live_groups signals in
    if member pgid live_groups then live_member r rest else rest

-- What the system answers in each round.
pub record Rounds : Type 0 where
  pub killpg : ℕ → ℕ → Signal → Result {0} Unit
  pub live_groups : ℕ → List ℕ

unfoldable pub kill_round : Rounds → List PinnedGroup → ℕ → Result Bool
kill_round rounds groups round =
    observe (rounds.live_groups round) (signal_all (rounds.killpg round) groups)

-- What follows a round: an error, the end behind two empty observations, or the next round.
abbrev pub on_round :
    (Bool → Option (Result {0} Unit)) → Bool → Result Bool → Option (Result {0} Unit)
on_round again was_empty (err e) = some (err e)
on_round again was_empty (ok live) =
    if not live && was_empty then some (ok tt) else again (not live)

-- The loop of `kill_owned_groups`, watched for `fuel` rounds.
unfoldable pub kill_loop : Rounds → List PinnedGroup → ℕ → Bool → ℕ → Option (Result {0} Unit)
kill_loop rounds groups round was_empty zero = none
kill_loop rounds groups round was_empty (suc fuel) =
    on_round (λ empty. kill_loop rounds groups (suc round) empty fuel) was_empty
      (kill_round rounds groups round)

unfoldable pub kill_owned_groups : Rounds → List PinnedGroup → ℕ → Option (Result {0} Unit)
kill_owned_groups rounds groups fuel = kill_loop rounds groups 0 false fuel

-- The reaping loop of `kill_and_reap_owned`: what `child.wait` came to for each group that is taken.
abbrev pub on_waited :
    PinnedGroup
    → Result {0} Unit
    → Result {0} Unit × List PinnedGroup
    → List PinnedGroup
    → Result {0} Unit × List PinnedGroup
on_waited g (err e) later groups = (err e, restore g ∷ groups)
on_waited g (ok u) (r, reaped_groups) groups = (r, mark_reaped g ∷ reaped_groups)

abbrev pub on_taken :
    Bool × PinnedGroup
    → Result {0} Unit
    → Result {0} Unit × List PinnedGroup
    → List PinnedGroup
    → Result {0} Unit × List PinnedGroup
on_taken (true, g) waited later groups = on_waited g waited later groups
on_taken (false, g) waited (r, reaped_groups) groups = (r, g ∷ reaped_groups)

unfoldable pub reap_all :
    (ℕ → Result {0} Unit) → List PinnedGroup → Result {0} Unit × List PinnedGroup
reap_all wait [] = (ok tt, [])
reap_all wait (g ∷ groups) = on_taken (take_for_reap g) (wait g.pgid) (reap_all wait groups) groups

-- `fence_leaked`
abbrev pub fence_leaked : Error
fence_leaked = provider (record {
  provider = "host";
  code = some "fence_leaked";
  message = bytes_of "process groups did not drain; no signal was sent to saved ids";
  retryable = false;
})
