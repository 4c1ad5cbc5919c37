-- ===== src/Wait/Tests.antt =====
-- A start that is over at the third poll, and one that never comes.
use sandbox_driver.Base.{ℕ, ◌*◌, ◌≡◌, refl, ltb, some, [], ◌<◌, ◌≤◌, if◌then◌else◌, arith}
use sandbox_driver.Error.{starting, running, timeout, Result, ok, err}
use sandbox_driver.Status.{SandboxStatus, new, is_stable}
use sandbox_driver.Wait.{Polls, poll_loop, state_round, reached, wait_for_state}
use sandbox_driver.Wait.Verdicts.{Verdict, Waits, InTransition, wait_for_state-returns}

abbrev at_poll : ℕ → ℕ → SandboxStatus
at_poll from n = new [] (if ltb n from then starting else running)

-- A poll every second, of a sandbox that runs from a poll on.
abbrev polls_from : ℕ → Polls
polls_from from = record { describe = λ n. ok (at_poll from n); elapsed = λ n. n * 1000 }

wait_for_state-returns_example :
    (r : Result SandboxStatus) × (poll : ℕ) × (wait_for_state running
        (record { interval = 1000; deadline = some 2000 })
        (polls_from 9)
        3
      ≡ some r)
    × (poll ≤ 2)
    × Verdict running 2000 ((polls_from 9).elapsed poll) ((polls_from 9).describe poll) r
    × ((j : ℕ)
        → j < poll
        → Waits running 2000 ((polls_from 9).elapsed j) ((polls_from 9).describe j))
wait_for_state-returns_example =
    wait_for_state-returns running 1000 2000 (polls_from 9) 2 (omega arith)

transition :
    (j : ℕ)
    → j < 2
    → InTransition (record { interval = 1000; deadline = some 5000 }) (polls_from 2) j
unfolding new is_stable
transition j h = (at_poll 2 j, refl, ground arith, omega arith)

wait_for_state-late :
    wait_for_state running (record { interval = 1000; deadline = some 2000 }) (polls_from 9) 3
    ≡ some (err (timeout "waiting for state" 2000))
unfolding wait_for_state poll_loop state_round reached new
wait_for_state-late = refl
