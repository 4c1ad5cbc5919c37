-- ===== src/Grace/Tests.antt =====
-- A ladder that times out and kills behind its grace.
use sandbox_driver.Base.{ℕ, ◌≡◌, refl, some, List, [], ◌∷◌}
use sandbox_driver.Error.{killed, timed_out, ok}
use sandbox_driver.Grace.{
  Signal, tick, term_fired, ladder, drive, drive_all, reported, run_with_stop_grace,
}
use sandbox_driver.Grace.Rungs.{Holds, drive_all-Holds}

abbrev schedule : List (ℕ × Signal)
schedule = (2, tick) ∷ (3, term_fired) ∷ (7, tick) ∷ []

run_with_stop_grace_times_out :
    run_with_stop_grace 5 (some 2) schedule (λ t k. ok killed) ≡ ok timed_out
unfolding run_with_stop_grace drive_all drive reported
run_with_stop_grace_times_out = refl

drive_all-Holds_example :
    let m = drive_all 5 (some 2) schedule ladder in Holds 5 (some 2) schedule m.stage m
drive_all-Holds_example = drive_all-Holds 5 (some 2) schedule
