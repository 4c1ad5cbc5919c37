-- ===== src/Drain/Stops.antt =====
-- What a race has sent when it ends (drain.rs).
use sandbox_driver.Base.{
  ℕ, ◌+◌, ◌≡◌, ◌≢◌, refl, ◌⊎◌, inl, inr, Bool, true, false, not, ◌&&◌, if◌then◌else◌, Option, none,
  some, List, [], ◌∷◌, ◌++◌, arith, Bool-cases,
}
use sandbox_driver.Error.{Result, ok, err, Termination, exited, cancelled, killed, timed_out}
use sandbox_driver.Drain.{
  StopLevel, term, kill, StopPhase, running, term_sent, kill_sent, is_kill_sent, is_running,
  is_expired, stop_sent, Ready, drained, sink_failed, termed, kill_fired, deadline, drain_timeout,
  Race, start, Raced, outcome, broke, pending, Stopper, answered, send, finish, select, race_on,
  drain_with_stops,
}

-- What was sent in a phase, and why.
abbrev pub Stands : StopPhase → Termination → List StopLevel → Type 0
Stands running t sent = (sent ≡ []) × (t ≡ exited)
Stands term_sent t sent = (sent ≡ term ∷ []) × (t ≡ cancelled)
Stands (kill_sent _) t sent = ((sent ≡ kill ∷ []) ⊎ (sent ≡ term ∷ kill ∷ [])) × (t ≢ exited)

abbrev pub Standing : Race → Type 0
Standing race = Stands race.phase race.termination race.sent

-- The strongest stop that an outcome reports is the last that was sent.
abbrev pub Reports : Option StopLevel → Termination → List StopLevel → Type 0
Reports none t sent = (sent ≡ []) × (t ≡ exited)
Reports (some term) t sent = (sent ≡ term ∷ []) × (t ≡ cancelled)
Reports (some kill) t sent = ((sent ≡ kill ∷ []) ⊎ (sent ≡ term ∷ kill ∷ [])) × (t ≢ exited)

kills :
    (q : StopPhase) (t : Termination) (sent : List StopLevel)
    → is_kill_sent q ≡ false
    → Stands q t sent
    → (sent ++ (kill ∷ []) ≡ kill ∷ []) ⊎ (sent ++ (kill ∷ []) ≡ term ∷ kill ∷ [])
kills running t sent e (s, _) = inl (rw s refl)
kills term_sent t sent e (s, _) = inr (rw s refl)
kills (kill_sent _) t sent e s = absurd (ground arith)

unsent :
    (q : StopPhase) (t : Termination) (sent : List StopLevel)
    → is_running q ≡ true
    → Stands q t sent
    → sent ++ (term ∷ []) ≡ term ∷ []
unsent running t sent e (s, _) = rw s refl
unsent term_sent t sent e s = absurd (ground arith)
unsent (kill_sent u) t sent e s = absurd (ground arith)

expired-IsKillSent : (q : StopPhase) (now : ℕ) → is_expired q now ≡ true → is_kill_sent q ≡ true
expired-IsKillSent running now e = ground arith
expired-IsKillSent term_sent now e = ground arith
expired-IsKillSent (kill_sent u) now e = refl

module _ (stopper : Stopper) {T : Type 0} (grace : ℕ) (failed : Bool) where
  abbrev pub Sound : Raced T → Type 0
  Sound (outcome o sent) =
      Reports o.stop_sent o.termination sent
      × (failed ≡ true → o.stop_sent ≡ some kill)
      × (o.drained ≡ none → o.stop_sent ≡ some kill)
  Sound (broke e sent) = (sent ≡ term ∷ []) ⊎ (sent ≡ kill ∷ []) ⊎ (sent ≡ term ∷ kill ∷ [])
  Sound (pending race) = Standing race

  answered-Sound :
      (next : Race → Raced T) (race : Race) (r : Result {0} Unit)
      → (race.sent ≡ term ∷ []) ⊎ (race.sent ≡ kill ∷ []) ⊎ (race.sent ≡ term ∷ kill ∷ [])
      → Sound (next race)
      → Sound (answered stopper next race r)
  answered-Sound next race (ok _) s h = h
  answered-Sound next race (err e) s h = s

  -- A kill from a phase that has none.
  send_kill :
      (next : Race → Raced T) (race : Race) (q : StopPhase) (t : Termination)
      → is_kill_sent q ≡ false
      → Stands q t race.sent
      → ((sent : List StopLevel)
          → (sent ≡ kill ∷ []) ⊎ (sent ≡ term ∷ kill ∷ [])
          → Sound (next (record race { sent = sent })))
      → Sound (send stopper next kill race)
  send_kill next race q t e s k =
      let sent = kills q t race.sent e s in
      answered-Sound next (record race { sent = race.sent ++ (kill ∷ []) }) _ (inr sent) (k _ sent)

  abbrev last_kill : Option T → Race → Raced T
  last_kill d race =
      outcome (record { termination = race.termination; drained = d; stop_sent = some kill })
        race.sent

  finish_kill :
      (q : StopPhase) (d : Option T) (race : Race)
      → is_kill_sent q ≡ false
      → Stands q race.termination race.sent
      → Sound (send stopper (last_kill d) kill (record race { termination = cancelled }))
  finish_kill q d race e s =
      send_kill (last_kill d) (record race { termination = cancelled }) q race.termination e s
        (λ sent h. ((h, λ w. ground arith), λ w. refl, λ w. refl))

  reported :
      (q : StopPhase) (d : Option T) (t : Termination) (sent : List StopLevel)
      → Stands q t sent
      → (failed && not (is_kill_sent q)) ≡ false
      → (d ≡ none → is_kill_sent q ≡ true)
      → Reports (stop_sent q) t sent
        × (failed ≡ true → stop_sent q ≡ some kill)
        × (d ≡ none → stop_sent q ≡ some kill)
  reported running d t sent s f h =
      (s, λ w. ground arith, λ w. absurd (let e = h w in ground arith))
  reported term_sent d t sent s f h =
      (s, λ w. ground arith, λ w. absurd (let e = h w in ground arith))
  reported (kill_sent u) d t sent s f h = (s, λ w. refl, λ w. refl)

  finish-Sound :
      (d : Option T) (race : Race)
      → Standing race
      → (d ≡ none → is_kill_sent race.phase ≡ true)
      → Sound (finish stopper failed d race)
  unfolding finish
  finish-Sound d race s h = elim (Bool-cases (failed && not (is_kill_sent race.phase))) [
    | inl b ↦ rw b (finish_kill race.phase d race (ground arith) s)
    | inr b ↦ rw b (reported race.phase d race.termination race.sent s b h)
  ]

  kill_branch :
      (next : Race → Raced T) (t : Termination) (u : ℕ) (race : Race)
      → t ≢ exited
      → Standing race
      → ((r : Race) → Standing r → Sound (next r))
      → Sound (
          if is_kill_sent race.phase
          then next race
          else send stopper next kill (record race { termination = t; phase = kill_sent u }))
  kill_branch next t u race n s k = elim (Bool-cases (is_kill_sent race.phase)) [
    | inl e ↦ rw e (k race s)
    | inr e ↦ rw e (
        send_kill next (record race { termination = t; phase = kill_sent u }) race.phase
          race.termination e s
          (λ sent h. k (record { termination = t; phase = kill_sent u; sent = sent }) (h, n)))
  ]

  select-Sound :
      (next : Race → Raced T) (now : ℕ) (ready : Ready T) (race : Race)
      → Standing race
      → ((r : Race) → Standing r → Sound (next r))
      → Sound (select stopper grace next (finish stopper failed) now ready race)
  unfolding select
  select-Sound next now (drained out) race s k = finish-Sound (some out) race s (λ w. ground arith)
  select-Sound next now drain_timeout race s k = elim (Bool-cases (is_expired race.phase now)) [
    | inl e ↦ rw e (finish-Sound none race s (λ w. expired-IsKillSent race.phase now e))
    | inr e ↦ rw e (k race s)
  ]
  select-Sound next now termed race s k = elim (Bool-cases (is_running race.phase)) [
    | inl e ↦ rw e (
        let w = unsent race.phase race.termination race.sent e s in
        let after : Race = record {
          termination = cancelled;
          phase = term_sent;
          sent = race.sent ++ (term ∷ []);
        } in
        answered-Sound next after _ (inl w) (k after (w, refl)))
    | inr e ↦ rw e (k race s)
  ]
  select-Sound next now sink_failed race s k =
      kill_branch next cancelled (now + grace) race (λ w. ground arith) s k
  select-Sound next now kill_fired race s k =
      kill_branch next killed (now + grace) race (λ w. ground arith) s k
  select-Sound next now deadline race s k =
      kill_branch next timed_out (now + grace) race (λ w. ground arith) s k

  race_on-Sound :
      (schedule : List (ℕ × Ready T)) (race : Race)
      → Standing race
      → Sound (race_on stopper grace failed schedule race)
  unfolding race_on
  race_on-Sound [] race s = s
  race_on-Sound ((now, ready) ∷ later) race s =
      select-Sound (race_on stopper grace failed later) now ready race s
        (λ r h. race_on-Sound later r h)

  -- Whatever becomes ready and in whichever order, a race that ends has sent nothing, one term, one
  -- kill, or a term and then a kill; it reports the last of them, and an exit exactly where nothing
  -- was sent. Where the sink failed or the output was abandoned, a kill was sent. A race that a
  -- failing stop breaks off has sent at most those, and one that still waits holds the same.
  pub drain_with_stops-Sound :
      (schedule : List (ℕ × Ready T)) → Sound (drain_with_stops stopper grace failed schedule)
  unfolding drain_with_stops
  drain_with_stops-Sound schedule = race_on-Sound schedule start (refl, refl)
