-- ===== src/Grace/Rungs.antt =====
-- What the ladder has fired, and why (grace.rs).
use sandbox_driver.Base.{
  ℕ, ◌+◌, ◌≤◌, ◌≡◌, refl, ap, subst, ◌∙◌, ◌⊎◌, inl, inr, Bool, true, false, ◌&&◌, Option, none,
  some, List, [], ◌∷◌, ◌++◌, leb, Bool-cases, append_assoc, append-nil, arith,
}
use sandbox_driver.Error.{Termination, timed_out, Result, ok}
use sandbox_driver.Grace.{
  Cause, cause_timed_out, stopped, Stage, watching, waiting, over, Ladder, ladder, Signal, tick,
  term_fired, kill_fired, is_due, is_timeout, is_stopped, passed, reported, run_with_stop_grace,
  drive, drive_all,
}

-- The signal is somewhere in the schedule, at that instant.
pub data Fired (now : ℕ) (signal : Signal) : List (ℕ × Signal) → Type 0 where
  last : (earlier : List (ℕ × Signal)) → Fired now signal (earlier ++ ((now, signal) ∷ []))
  before :
      (earlier : List (ℕ × Signal)) (e : ℕ × Signal)
      → Fired now signal earlier
      → Fired now signal (earlier ++ (e ∷ []))

-- Why the first rung was taken at an instant, and the cause on record.
abbrev pub Rung : Option ℕ → List (ℕ × Signal) → ℕ → Option Cause → Type 0
Rung until past at cause =
    (Fired at tick past × (is_due until at ≡ true) × (cause ≡ some cause_timed_out))
    ⊎ (Fired at term_fired past × (cause ≡ some stopped))

-- What holds of a ladder behind a schedule. The second clause of a kill: the grace has passed behind
-- the TERM, or the caller killed.
abbrev pub Holds : ℕ → Option ℕ → List (ℕ × Signal) → Stage → Ladder → Type 0
Holds grace until past watching l =
    (l.inner_term ≡ false) × (l.inner_kill ≡ false) × (l.cause ≡ none)
Holds grace until past (waiting grace_end) l =
    (l.inner_term ≡ true)
    × (l.inner_kill ≡ false)
    × ((at : ℕ) × Rung until past at l.cause × (grace_end ≡ at + grace))
Holds grace until past over l =
    (l.inner_kill ≡ true)
    × (((l.inner_term ≡ false) × ((now : ℕ) × Fired now kill_fired past) × (l.cause ≡ some stopped))
        ⊎ ((l.inner_term ≡ true)
            × ((at : ℕ) × Rung until past at l.cause
                × (((now : ℕ) × Fired now kill_fired past)
                    ⊎ ((now : ℕ) × Fired now tick past × (at + grace ≤ now))))))

module _ (grace : ℕ) (until : Option ℕ) where
  Rung-before :
      (past : List (ℕ × Signal)) (e : ℕ × Signal) (at : ℕ) (cause : Option Cause)
      → Rung until past at cause
      → Rung until (past ++ (e ∷ [])) at cause
  Rung-before past e at cause (inl (f, d, c)) = inl (before past e f, d, c)
  Rung-before past e at cause (inr (f, c)) = inr (before past e f, c)

  Holds-over :
      (past : List (ℕ × Signal)) (e : ℕ × Signal) (l : Ladder)
      → Holds grace until past over l
      → Holds grace until (past ++ (e ∷ [])) over l
  Holds-over past e l (k, inl (t, (n, f), c)) = (k, inl (t, (n, before past e f), c))
  Holds-over past e l (k, inr (t, (at, r, inl (n, f)))) =
      (k, inr (t, (at, Rung-before past e at l.cause r, inl (n, before past e f))))
  Holds-over past e l (k, inr (t, (at, r, inr (n, f, d)))) =
      (k, inr (t, (at, Rung-before past e at l.cause r, inr (n, before past e f, d))))

  drive-Holds :
      (past : List (ℕ × Signal)) (now : ℕ) (signal : Signal) (stage : Stage) (l : Ladder)
      → l.stage ≡ stage
      → Holds grace until past stage l
      → let m = drive grace until stage now signal l in
        Holds grace until (past ++ ((now, signal) ∷ [])) m.stage m
  unfolding drive
  drive-Holds past now tick watching l e (t, k, c) = elim (Bool-cases (is_due until now)) [
    | inl d ↦ rw d (refl, k, (now, inl (last past, d, refl), refl))
    | inr d ↦ rw (d, e) (t, k, c)
  ]
  drive-Holds past now term_fired watching l e (t, k, c) =
      (refl, k, (now, inr (last past, refl), refl))
  drive-Holds past now kill_fired watching l e (t, k, c) = (refl, inl (t, (now, last past), refl))
  drive-Holds past now tick (waiting grace_end) l e (t, k, (at, r, g)) =
      elim (Bool-cases (leb grace_end now)) [
        | inl d ↦ rw d (
          refl,
          inr (
            t,
            (at, Rung-before past (now, tick) at l.cause r, inr (now, last past, ground arith)),
          ),
        )
        | inr d ↦ rw (d, e) (t, k, (at, Rung-before past (now, tick) at l.cause r, g))
      ]
  drive-Holds past now kill_fired (waiting grace_end) l e (t, k, (at, r, g)) =
      (refl, inr (t, (at, Rung-before past (now, kill_fired) at l.cause r, inl (now, last past))))
  drive-Holds past now term_fired (waiting grace_end) l e (t, k, (at, r, g)) =
      rw e (t, k, (at, Rung-before past (now, term_fired) at l.cause r, g))
  drive-Holds past now signal over l e h = rw e (Holds-over past (now, signal) l h)

  drive_all-from :
      (past later : List (ℕ × Signal)) (l : Ladder)
      → Holds grace until past l.stage l
      → let m = drive_all grace until later l in Holds grace until (past ++ later) m.stage m
  unfolding drive_all
  drive_all-from past [] l h = rw (append-nil past) h
  drive_all-from past ((now, signal) ∷ later) l h =
      let m = drive grace until l.stage now signal l in
      subst (λ q. let n = drive_all grace until later m in Holds grace until q n.stage n)
        (append_assoc past ((now, signal) ∷ []) later)
        (drive_all-from (past ++ ((now, signal) ∷ [])) later m
          (drive-Holds past now signal l.stage l refl h))

  -- Whatever the schedule, a ladder kills without a TERM only where the caller killed, and behind a
  -- TERM only once the grace has passed or the caller killed; the first TERM is for a timeout that is
  -- over or for the caller's term, which the cause on record says. Nothing else starts the ladder: a
  -- failing sink, which the source's comment names too, does not.
  pub drive_all-Holds :
      (schedule : List (ℕ × Signal))
      → let m = drive_all grace until schedule ladder in Holds grace until schedule m.stage m
  drive_all-Holds schedule = drive_all-from [] schedule ladder (refl, refl, refl)

  Rung-timeout :
      (past : List (ℕ × Signal)) (at : ℕ) (cause : Option Cause)
      → Rung until past at cause
      → is_timeout cause ≡ true
      → Fired at tick past × (is_due until at ≡ true)
  Rung-timeout past at cause (inl (f, d, c)) h = (f, d)
  Rung-timeout past at cause (inr (f, c)) h = absurd (ground arith)

  -- A cause of a timeout comes from a tick behind the end of the timeout.
  timeout_fired :
      (past : List (ℕ × Signal)) (stage : Stage) (l : Ladder)
      → Holds grace until past stage l
      → is_timeout l.cause ≡ true
      → (at : ℕ) × Fired at tick past × (is_due until at ≡ true)
  timeout_fired past watching l (t, k, c) h = absurd (ground arith)
  timeout_fired past (waiting grace_end) l (t, k, (at, r, g)) h =
      let (f, d) = Rung-timeout past at l.cause r h in (at, f, d)
  timeout_fired past over l (k, inl (t, n, c)) h = absurd (ground arith)
  timeout_fired past over l (k, inr (t, (at, r, w))) h =
      let (f, d) = Rung-timeout past at l.cause r h in (at, f, d)

  -- A command under the ladder reports its own termination; or a timeout, where the ladder's first
  -- rung was a tick behind the end of the timeout and the command was cancelled or killed.
  pub run_with_stop_grace-reports :
      (schedule : List (ℕ × Signal)) (run : Bool → Bool → Result Termination) (own : Termination)
      → run
          (drive_all grace until schedule ladder).inner_term
          (drive_all grace until schedule ladder).inner_kill
        ≡ ok own
      → (run_with_stop_grace grace until schedule run ≡ ok own)
        ⊎ ((run_with_stop_grace grace until schedule run ≡ ok timed_out)
            × (is_stopped own ≡ true)
            × ((at : ℕ) × Fired at tick schedule × (is_due until at ≡ true)))
  unfolding run_with_stop_grace reported
  run_with_stop_grace-reports schedule run own h =
      let l = drive_all grace until schedule ladder in
      elim (Bool-cases (is_timeout l.cause && is_stopped own)) [
        | inr n ↦ inl (ap (passed l.cause) h ∙ rw n refl)
        | inl y ↦ inr (
          ap (passed l.cause) h ∙ rw y refl,
          ground arith,
          timeout_fired schedule l.stage l (drive_all-Holds schedule) (ground arith),
        )
      ]
