-- ===== src/Drain/Tests.antt =====
-- A race with a term, a kill and a drain that runs out.
use sandbox_driver.Base.{ℕ, ◌≡◌, refl, true, false, none, some, List, [], ◌∷◌}
use sandbox_driver.Error.{ok, killed}
use sandbox_driver.Drain.{
  term, kill, Ready, drained, termed, kill_fired, drain_timeout, outcome, Stopper, drain_with_stops,
  race_on, select, finish,
}
use sandbox_driver.Drain.Stops.{Sound, drain_with_stops-Sound}
use sandbox_driver.Drain.Verdict.{Ends, drain_with_stops-verdict}

abbrev obliging : Stopper
obliging = record { stop = λ n level. ok tt }

abbrev schedule : List (ℕ × Ready ℕ)
schedule = (1, termed) ∷ (2, kill_fired) ∷ (4, drain_timeout) ∷ (7, drain_timeout) ∷ []

drain_with_stops_abandons :
    drain_with_stops obliging 5 false schedule
    ≡ outcome
        (record { termination = killed; drained = none; stop_sent = some kill })
        (term ∷ kill ∷ [])
unfolding drain_with_stops race_on select finish
drain_with_stops_abandons = refl

-- The sink has failed by the time the output ends.
abbrev ends : List (ℕ × Ready ℕ)
ends = (3, drained 8) ∷ []

drain_with_stops-Sound_example : Sound obliging 5 true (drain_with_stops obliging 5 true ends)
drain_with_stops-Sound_example = drain_with_stops-Sound obliging 5 true ends

drain_with_stops-verdict_example :
    Ends obliging 5 false killed (drain_with_stops obliging 5 false schedule)
drain_with_stops-verdict_example = drain_with_stops-verdict obliging 5 false schedule
