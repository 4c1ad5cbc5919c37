-- ===== src/Drain/Verdict.antt =====
-- Why the command was stopped (drain.rs).
use sandbox_driver.Base.{
  ℕ, ◌+◌, ◌≡◌, refl, subst, length, inl, inr, Bool, true, false, if◌then◌else◌, Option, none, some,
  List, [], ◌∷◌, ◌++◌, arith, Bool-cases,
}
use sandbox_driver.Error.{Result, ok, err, Termination, exited, cancelled, killed, timed_out}
use sandbox_driver.Drain.{
  StopLevel, term, kill, term_sent, kill_sent, is_kill_sent, is_running, is_expired, Ready, drained,
  sink_failed, termed, kill_fired, deadline, drain_timeout, Race, start, Raced, outcome, broke,
  pending, Stopper, answered, send, finish, select, race_on, drain_with_stops,
}

-- The first future of the schedule that kills, before the output ends, decides; without one, a
-- failed sink or a term cancels.
abbrev pub verdict : {T : Type 0} → Termination → Bool → List (ℕ × Ready T) → Termination
verdict t failed [] = t
verdict t failed ((_, drained _) ∷ _) = if failed then cancelled else t
verdict t failed ((_, sink_failed) ∷ _) = cancelled
verdict t failed ((_, kill_fired) ∷ _) = killed
verdict t failed ((_, deadline) ∷ _) = timed_out
verdict t failed ((_, termed) ∷ later) = verdict cancelled failed later
verdict t failed ((_, drain_timeout) ∷ later) = verdict t failed later

module _ (stopper : Stopper) {T : Type 0} (grace : ℕ) (failed : Bool) where
  abbrev pub Ends : Termination → Raced T → Type 0
  Ends t (outcome o sent) = o.termination ≡ t
  Ends t (broke e sent) = Unit
  Ends t (pending race) = Unit

  answered-Ends :
      (t : Termination) (next : Race → Raced T) (race : Race) (r : Result {0} Unit)
      → Ends t (next race)
      → Ends t (answered stopper next race r)
  answered-Ends t next race (ok _) h = h
  answered-Ends t next race (err e) h = tt

  send-Ends :
      (t : Termination) (next : Race → Raced T) (level : StopLevel) (race : Race)
      → ((sent : List StopLevel) → Ends t (next (record race { sent = sent })))
      → Ends t (send stopper next level race)
  send-Ends t next level race k =
      answered-Ends t next (record race { sent = race.sent ++ (level ∷ []) })
        (stopper.stop (length race.sent) level) (k (race.sent ++ (level ∷ [])))

  abbrev last_kill : Option T → Race → Raced T
  last_kill d race =
      outcome (record { termination = race.termination; drained = d; stop_sent = some kill })
        race.sent

  finish_killed :
      (d : Option T) (race : Race)
      → is_kill_sent race.phase ≡ true
      → Ends race.termination (finish stopper failed d race)
  unfolding finish
  finish_killed d race h = elim (Bool-cases failed) [ inl f ↦ rw (f, h) refl | inr f ↦ rw f refl ]

  finish_unkilled :
      (d : Option T) (race : Race)
      → is_kill_sent race.phase ≡ false
      → Ends (if failed then cancelled else race.termination) (finish stopper failed d race)
  unfolding finish
  finish_unkilled d race h = elim (Bool-cases failed) [
    | inl f ↦
        rw (f, h)
          (send-Ends cancelled (last_kill d) kill (record race { termination = cancelled })
            (λ sent. refl))
    | inr f ↦ rw f refl
  ]

  -- A kill decides: what follows it leaves the termination.
  killed-Ends :
      (schedule : List (ℕ × Ready T)) (race : Race)
      → is_kill_sent race.phase ≡ true
      → Ends race.termination (race_on stopper grace failed schedule race)
  unfolding race_on select
  killed-Ends [] race h = tt
  killed-Ends ((now, drained out) ∷ later) race h = finish_killed (some out) race h
  killed-Ends ((now, sink_failed) ∷ later) race h = rw h (killed-Ends later race h)
  killed-Ends ((now, termed) ∷ later) race h = elim (Bool-cases (is_running race.phase)) [
    | inl e ↦ absurd (ground arith)
    | inr e ↦ rw e (killed-Ends later race h)
  ]
  killed-Ends ((now, kill_fired) ∷ later) race h = rw h (killed-Ends later race h)
  killed-Ends ((now, deadline) ∷ later) race h = rw h (killed-Ends later race h)
  killed-Ends ((now, drain_timeout) ∷ later) race h =
      elim (Bool-cases (is_expired race.phase now)) [
        | inl e ↦ rw e (finish_killed none race h)
        | inr e ↦ rw e (killed-Ends later race h)
      ]

  sent_kill :
      (t : Termination) (later : List (ℕ × Ready T)) (now : ℕ) (race : Race)
      → Ends t (
          send stopper
            (race_on stopper grace failed later)
            kill
            (record race { termination = t; phase = kill_sent (now + grace) }))
  sent_kill t later now race =
      send-Ends t (race_on stopper grace failed later) kill
        (record race { termination = t; phase = kill_sent (now + grace) })
        (λ sent.
          killed-Ends later
            (record { termination = t; phase = kill_sent (now + grace); sent = sent }) refl)

  -- A term that is not the first is passed over.
  kept_verdict :
      (later : List (ℕ × Ready T)) (race : Race)
      → race.termination ≡ cancelled
      → Ends (verdict race.termination failed later) (race_on stopper grace failed later race)
      → Ends (verdict cancelled failed later) (race_on stopper grace failed later race)
  kept_verdict later race c h =
      subst (λ t. Ends (verdict t failed later) (race_on stopper grace failed later race)) c h

  race_on-verdict :
      (schedule : List (ℕ × Ready T)) (race : Race)
      → is_kill_sent race.phase ≡ false
      → (is_running race.phase ≡ false → race.termination ≡ cancelled)
      → Ends (verdict race.termination failed schedule) (race_on stopper grace failed schedule race)
  unfolding race_on select
  race_on-verdict [] race h c = tt
  race_on-verdict ((now, drained out) ∷ later) race h c = finish_unkilled (some out) race h
  race_on-verdict ((now, sink_failed) ∷ later) race h c = rw h (sent_kill cancelled later now race)
  race_on-verdict ((now, termed) ∷ later) race h c = elim (Bool-cases (is_running race.phase)) [
    | inl e ↦ rw e (
        send-Ends (verdict cancelled failed later) (race_on stopper grace failed later) term
          (record race { termination = cancelled; phase = term_sent })
          (λ sent.
            race_on-verdict later
              (record { termination = cancelled; phase = term_sent; sent = sent }) refl
              (λ w. refl)))
    | inr e ↦ rw e (kept_verdict later race (c e) (race_on-verdict later race h c))
  ]
  race_on-verdict ((now, kill_fired) ∷ later) race h c = rw h (sent_kill killed later now race)
  race_on-verdict ((now, deadline) ∷ later) race h c = rw h (sent_kill timed_out later now race)
  race_on-verdict ((now, drain_timeout) ∷ later) race h c =
      elim (Bool-cases (is_expired race.phase now)) [
        | inl e ↦ absurd (ground arith)
        | inr e ↦ rw e (race_on-verdict later race h c)
      ]

  -- The termination that a race reports is the schedule's verdict: the first kill, timeout or failed
  -- sink before the output ends, whatever follows it; else a cancellation where the sink has failed
  -- by then or a term fired; else an exit.
  pub drain_with_stops-verdict :
      (schedule : List (ℕ × Ready T))
      → Ends (verdict exited failed schedule) (drain_with_stops stopper grace failed schedule)
  unfolding drain_with_stops
  drain_with_stops-verdict schedule = race_on-verdict schedule start refl (λ w. ground arith)
