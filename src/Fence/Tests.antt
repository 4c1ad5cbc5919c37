-- ===== src/Fence/Tests.antt =====
-- A handle that signals around a stop, a group that dies at the second round, and a stop that fails.
use sandbox_driver.Base.{
  ℕ, ◌≡◌, refl, true, false, ◌<◌, some, List, [], ◌∷◌, String, ltb, if◌then◌else◌, arith,
}
use sandbox_driver.Error.{Result, ok, err}
use sandbox_driver.Fence.{
  held, PinnedGroup, Signal, sigterm, sigkill, Rounds, kill_round, observe, signal, is_pinned,
  take_for_reap, restore, mark_reaped, reap_all, kill_owned_groups, fence_leaked,
}
use sandbox_driver.Fence.Groups.{
  GroupState, Answers, drain, stop, spawn, stopped_error, kill_and_reap_owned,
}
use sandbox_driver.Fence.Pins.{
  Event, handle_signals, stop_takes, wait_succeeds, wait_fails, stop_marks, run, step, spawned,
  Timely, run-Timely,
}
use sandbox_driver.Fence.Kills.{Settled, Succeeds, kill_owned_groups-settles}
use sandbox_driver.Fence.Drains.{Drained, stop-Drained}

abbrev killpg : ℕ → Signal → Result {0} Unit
killpg pgid s = ok tt

-- The second and the third signal find the child taken, and reaped.
abbrev actions : List Event
actions =
    handle_signals sigterm
    ∷ stop_takes
    ∷ handle_signals sigkill
    ∷ wait_fails
    ∷ stop_takes
    ∷ wait_succeeds
    ∷ stop_marks
    ∷ handle_signals sigkill
    ∷ []

run-Timely_example :
    Timely (run killpg actions (spawned 7)).sent
    × ((run killpg actions (spawned 7)).group.pin ≡ held
        → (run killpg actions (spawned 7)).unreaped ≡ true)
run-Timely_example = run-Timely killpg 7 actions

run-sent : (run killpg actions (spawned 7)).sent ≡ (sigterm, true) ∷ []
unfolding step signal is_pinned take_for_reap restore mark_reaped
run-sent = refl

abbrev group : PinnedGroup
group = record { pgid = 7; pin = held }

-- The group is live in the first round only.
abbrev rounds : Rounds
rounds = record {
  killpg = λ round. killpg;
  live_groups = λ round. if ltb 0 round then [] else 7 ∷ [];
}

Settled-at_one : Settled rounds (group ∷ []) 1
Settled-at_one = ((λ e. refl, tt), (λ e. refl, tt))

Succeeds-before : (j : ℕ) → j < 1 → Succeeds rounds (group ∷ []) j
unfolding kill_round observe signal is_pinned
Succeeds-before j h = let z : ltb 0 j ≡ false = ground arith in (true, rw z refl)

kill_owned_groups-settles_example : kill_owned_groups rounds (group ∷ []) 3 ≡ some (ok tt)
kill_owned_groups-settles_example =
    kill_owned_groups-settles rounds (group ∷ []) 1 Settled-at_one Succeeds-before

-- The child cannot be reaped in time.
abbrev answers : Answers
answers = record {
  fence_saved = ok ("g1" ∷ [], []);
  killed = ok tt;
  wait = λ pgid. err fence_leaked;
  await_gone = λ pgids. ok tt;
  remove_dirs = λ paths. ok tt;
}

abbrev busy : GroupState
busy = record {
  accepting_work = true;
  generation = some (record { directory = "g1"; groups = group ∷ [] });
}

stop-Drained_example :
    ((stop answers busy).1.accepting_work ≡ false)
    × Drained busy.generation ((stop answers busy).0, (stop answers busy).1.generation)
    × ((created : Result String) (spawned : Result ℕ)
        → spawn created spawned (stop answers busy).1 ≡ (err stopped_error, (stop answers busy).1))
stop-Drained_example = stop-Drained answers busy

stop-kept : stop answers busy ≡ (err fence_leaked, record busy { accepting_work = false })
unfolding stop drain kill_and_reap_owned reap_all take_for_reap restore is_pinned
stop-kept = refl
