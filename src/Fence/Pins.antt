-- ===== src/Fence/Pins.antt =====
-- No group is signalled behind the reaping of its sentinel (sentinel.rs).
use sandbox_driver.Base.{
  ℕ, ◌≡◌, refl, Bool, true, false, Option, none, some, List, [], ◌∷◌, ◌++◌, All, All-append, arith,
}
use sandbox_driver.Error.{Result}
use sandbox_driver.Fence.{
  Pin, held, reaping, reaped, PinnedGroup, Signal, sigkill, is_pinned, signal, take_for_reap,
  restore, mark_reaped,
}

-- Where the one that stops stands with a group: at rest, waiting for the child that it took, or with
-- the child reaped.
pub data Stopper : Type 0 where
  resting taken waited : Stopper

-- A group and its surroundings: whether the system still holds the unreaped sentinel, and the signals
-- that were sent, each with whether the system held it then.
pub record Watch : Type 0 where
  pub group : PinnedGroup
  pub unreaped : Bool
  pub stopper : Stopper
  pub sent : List (Signal × Bool)

abbrev pub spawned : ℕ → Watch
spawned pgid = record {
  group = record { pgid = pgid; pin = held };
  unreaped = true;
  stopper = resting;
  sent = [];
}

-- What may happen next: a handle sends a signal at any time; the stopper takes the child, whose wait
-- succeeds or fails; the owner is dropped.
pub data Event : Type 0 where
  handle_signals : Signal → Event
  stop_takes wait_succeeds wait_fails stop_marks owner_drops : Event

-- A call of `signal`, of which the log keeps what was sent.
abbrev pub logged : Signal → Option (Result {0} Unit) → Watch → Watch
logged s none w = w
logged s (some r) w = record w { sent = w.sent ++ ((s, w.unreaped) ∷ []) }

abbrev pub send : (ℕ → Signal → Result {0} Unit) → Signal → Watch → Watch
send killpg s w = logged s (signal killpg s w.group) w

abbrev on_take : Bool × PinnedGroup → Watch → Watch
on_take (true, g) w = record w { group = g; stopper = taken }
on_take (false, g) w = record w { group = g }

abbrev on_drop : Bool → Watch → Watch
on_drop true w = record w { group = mark_reaped w.group; unreaped = false }
on_drop false w = record w { group = mark_reaped w.group }

-- A step, where it is possible: only a stopper at rest takes, only one that took waits; an owner is
-- dropped while nobody stops it, and the child that it held goes to the runtime to reap.
unfoldable pub step : (ℕ → Signal → Result {0} Unit) → Event → Stopper → Watch → Watch
step killpg (handle_signals s) stopper w = send killpg s w
step killpg stop_takes resting w = on_take (take_for_reap w.group) w
step killpg wait_succeeds taken w = record w { unreaped = false; stopper = waited }
step killpg wait_fails taken w = record w { group = restore w.group; stopper = resting }
step killpg stop_marks waited w = record w { group = mark_reaped w.group; stopper = resting }
step killpg owner_drops resting w = on_drop (is_pinned w.group) (send killpg sigkill w)
step killpg action stopper w = w

abbrev pub run : (ℕ → Signal → Result {0} Unit) → List Event → Watch → Watch
run killpg [] w = w
run killpg (a ∷ actions) w = run killpg actions (step killpg a w.stopper w)

-- The four phases of a group: its id is held, the stopper waits for the child, the child is reaped, and
-- that is marked. The system holds the sentinel in the first two.
pub data Phase : Pin → Stopper → Bool → Type 0 where
  pinned : Phase held resting true
  leaving : Phase reaping taken true
  left : (unreaped : Bool) → Phase reaping waited unreaped
  over : (unreaped : Bool) → Phase reaped resting unreaped

-- What was sent was sent while the system held the sentinel.
abbrev pub Timely : List (Signal × Bool) → Type 0
Timely sent = All (λ (e : Signal × Bool). e.1 ≡ true) sent

abbrev Safe : Watch → Type 0
Safe w = Phase w.group.pin w.stopper w.unreaped × Timely w.sent

abbrev watch : ℕ → Pin → Stopper → Bool → List (Signal × Bool) → Watch
watch pgid pin stopper unreaped sent = record {
  group = record { pgid = pgid; pin = pin };
  unreaped = unreaped;
  stopper = stopper;
  sent = sent;
}

held-unreaped :
    (pin : Pin) (stopper : Stopper) (unreaped : Bool)
    → Phase pin stopper unreaped
    → pin ≡ held
    → unreaped ≡ true
held-unreaped pin stopper unreaped pinned e = refl
held-unreaped pin stopper unreaped leaving e = refl
held-unreaped pin stopper unreaped (left u) e = absurd (ground arith)
held-unreaped pin stopper unreaped (over u) e = absurd (ground arith)

module _ (killpg : ℕ → Signal → Result {0} Unit) where
  Timely-sent :
      (s : Signal) (sent : List (Signal × Bool)) → Timely sent → Timely (sent ++ ((s, true) ∷ []))
  Timely-sent s sent h =
      All-append (λ (e : Signal × Bool). e.1 ≡ true) sent ((s, true) ∷ []) h (refl, tt)

  send-Safe :
      (pgid : ℕ) (s : Signal) (pin : Pin) (stopper : Stopper) (unreaped : Bool)
      (sent : List (Signal × Bool))
      → Phase pin stopper unreaped
      → Timely sent
      → Safe (send killpg s (watch pgid pin stopper unreaped sent))
  unfolding signal is_pinned
  send-Safe pgid s pin stopper unreaped sent pinned h = (pinned, Timely-sent s sent h)
  send-Safe pgid s pin stopper unreaped sent leaving h = (leaving, h)
  send-Safe pgid s pin stopper unreaped sent (left u) h = (left u, h)
  send-Safe pgid s pin stopper unreaped sent (over u) h = (over u, h)

  step-Safe :
      (pgid : ℕ) (a : Event) (pin : Pin) (stopper : Stopper) (unreaped : Bool)
      (sent : List (Signal × Bool))
      → Phase pin stopper unreaped
      → Timely sent
      → Safe (step killpg a stopper (watch pgid pin stopper unreaped sent))
  unfolding step signal is_pinned take_for_reap restore mark_reaped
  step-Safe pgid (handle_signals s) pin stopper unreaped sent p h =
      send-Safe pgid s pin stopper unreaped sent p h
  step-Safe pgid stop_takes pin stopper unreaped sent pinned h = (leaving, h)
  step-Safe pgid stop_takes pin stopper unreaped sent (over u) h = (over u, h)
  step-Safe pgid wait_succeeds pin stopper unreaped sent leaving h = (left false, h)
  step-Safe pgid wait_fails pin stopper unreaped sent leaving h = (pinned, h)
  step-Safe pgid stop_marks pin stopper unreaped sent (left u) h = (over u, h)
  step-Safe pgid owner_drops pin stopper unreaped sent pinned h =
      (over false, Timely-sent sigkill sent h)
  step-Safe pgid owner_drops pin stopper unreaped sent (over u) h = (over u, h)
  step-Safe pgid a pin stopper unreaped sent p h = (p, h)

  run-Safe : (actions : List Event) (w : Watch) → Safe w → Safe (run killpg actions w)
  run-Safe [] w h = h
  run-Safe (a ∷ actions) w h =
      run-Safe actions (step killpg a w.stopper w)
        (step-Safe w.group.pgid a w.group.pin w.stopper w.unreaped w.sent h.0 h.1)

  -- However the signals of the handles, the stops, their failures and the drop of the owner follow one
  -- another: every signal that was sent to the group was sent while the system held its unreaped
  -- sentinel, so its id was not another's. While the pin is held the system holds it.
  pub run-Timely :
      (pgid : ℕ) (actions : List Event)
      → Timely (run killpg actions (spawned pgid)).sent
        × ((run killpg actions (spawned pgid)).group.pin ≡ held
            → (run killpg actions (spawned pgid)).unreaped ≡ true)
  run-Timely pgid actions =
      let w = run killpg actions (spawned pgid) in
      let (p, h) = run-Safe actions (spawned pgid) (pinned, tt) in
      (h, held-unreaped w.group.pin w.stopper w.unreaped p)
