-- ===== src/Wait/Verdicts.antt =====
-- What a wait comes to, and that it comes to it (wait.rs).
use sandbox_driver.Base.{
  ℕ, zero, suc, String, ◌+◌, ◌≤◌, ◌<◌, ◌≡◌, ◌≢◌, ◌==◌, ==_iff, refl, sym, ap, ◌∙◌, subst, inl, inr,
  true, false, Option, none, some, leb, Bool-cases, Option-cases, arith,
}
use sandbox_driver.Error.{SandboxState, error, Error, timeout, Result, ok, err}
use sandbox_driver.Status.{SandboxStatus, is_stable, states_equal}
use sandbox_driver.Wait.{
  WaitOptions, Polls, overdue, stable_round, reached, entered_error, state_round, or_else,
  poll_loop, wait_for_stable_state, wait_for_state,
}

abbrev Round : Type 0
Round = ℕ → Result SandboxStatus → Option (Result SandboxStatus)

abbrev pub round_at : Round → Polls → ℕ → Option (Result SandboxStatus)
round_at round polls poll = round (polls.elapsed poll) (polls.describe poll)

-- The polls before `poll`, from `start` on, gave nothing.
abbrev pub Quiet : Round → Polls → ℕ → ℕ → Type 0
Quiet round polls start poll = (j : ℕ) → start ≤ j → j < poll → round_at round polls j ≡ none

-- The loop returns what the first decisive poll gives.
abbrev Decided : Round → Polls → ℕ → ℕ → ℕ → Type 0
Decided round polls fuel start n =
    (r : Result SandboxStatus) × (poll : ℕ) × (poll_loop round polls fuel start ≡ some r)
    × (poll ≤ n)
    × (round_at round polls poll ≡ some r)
    × Quiet round polls start poll

start_less : (a b : ℕ) → a ≤ b → a ≢ b → suc a ≤ b
start_less a b h n = elim (Bool-cases (a == b)) [
  | inl e ↦ absurd (n ((==_iff a b).0 e))
  | inr e ↦ ground arith
]

quiet_from :
    (round : Round) (polls : Polls) (start : ℕ)
    → round_at round polls start ≡ none
    → (j : ℕ) → (suc start ≤ j → round_at round polls j ≡ none)
    → start ≤ j
    → round_at round polls j ≡ none
quiet_from round polls start e j h k = elim (Bool-cases (start == j)) [
  | inl q ↦ ap (round_at round polls) (sym ((==_iff start j).0 q)) ∙ e
  | inr q ↦ h (ground arith)
]

poll_loop-Decided :
    (round : Round) (polls : Polls) (fuel start n : ℕ)
    → start ≤ n
    → n < start + fuel
    → round_at round polls n ≢ none
    → Decided round polls fuel start n
unfolding poll_loop
poll_loop-Decided round polls zero start n a b h = absurd (omega arith)
poll_loop-Decided round polls (suc fuel) start n a b h =
    elim (Option-cases (round_at round polls start)) [
      | inr (r, e) ↦ (
        r,
        start,
        ap (λ o. or_else o (poll_loop round polls fuel (suc start))) e,
        a,
        e,
        λ j k l. absurd (omega arith),
      )
      | inl e ↦
          let s : start ≢ n = λ q. h (ap (round_at round polls) (sym q) ∙ e) in
          let (r, poll, o, p, f, q) =
            poll_loop-Decided round polls fuel (suc start) n (start_less start n a s) (omega arith)
              h in
          (
            r,
            poll,
            ap (λ x. or_else x (poll_loop round polls fuel (suc start))) e ∙ o,
            p,
            f,
            λ j k l. quiet_from round polls start e j (λ m. q j m l) k,
          )
    ]

-- Why a poll ends the wait for a state with a deadline: it fails, the state is reached, it is the error
-- state, or the time is over.
pub data Verdict (target : SandboxState) (deadline elapsed : ℕ)
    : Result SandboxStatus → Result SandboxStatus → Type 0 where
  failed : (e : Error) → Verdict target deadline elapsed (err e) (err e)
  arrived :
      (s : SandboxStatus)
      → reached target s.state ≡ true
      → Verdict target deadline elapsed (ok s) (ok s)
  broken :
      (s : SandboxStatus)
      → reached target s.state ≡ false
      → states_equal s.state error ≡ true
      → Verdict target deadline elapsed (ok s) (err (entered_error s))
  late :
      (s : SandboxStatus)
      → reached target s.state ≡ false
      → states_equal s.state error ≡ false
      → deadline ≤ elapsed
      → Verdict target deadline elapsed (ok s) (err (timeout "waiting for state" elapsed))

-- Why a poll does not.
abbrev pub Waits : SandboxState → ℕ → ℕ → Result SandboxStatus → Type 0
Waits target deadline elapsed answer =
    (s : SandboxStatus) × (answer ≡ ok s)
    × (reached target s.state ≡ false)
    × (states_equal s.state error ≡ false)
    × (elapsed < deadline)

some_injective : (a b : Result SandboxStatus) → some a ≡ some b → a ≡ b
some_injective a b e = ap (λ o. elim o [ none ↦ a | some x ↦ x ]) e

none-some : (a : Result SandboxStatus) → none ≢ some a
none-some a e = ground arith

module _ (target : SandboxState) (deadline elapsed : ℕ) where
  state_round-Verdict :
      (answer r : Result SandboxStatus)
      → state_round target (some deadline) elapsed answer ≡ some r
      → Verdict target deadline elapsed answer r
  unfolding state_round
  state_round-Verdict (err e) r h =
      subst (Verdict target deadline elapsed (err e)) (some_injective (err e) r h) (failed e)
  state_round-Verdict (ok s) r h = elim (Bool-cases (reached target s.state)) [
    | inl e ↦
        subst (Verdict target deadline elapsed (ok s)) (some_injective (ok s) r (rw e at h))
          (arrived s e)
    | inr e ↦ elim (Bool-cases (states_equal s.state error)) [
      | inl b ↦
          subst (Verdict target deadline elapsed (ok s))
            (some_injective (err (entered_error s)) r (rw (e, b) at h)) (broken s e b)
      | inr b ↦ elim (Bool-cases (leb deadline elapsed)) [
        | inl l ↦
            subst (Verdict target deadline elapsed (ok s))
              (some_injective (err (timeout "waiting for state" elapsed)) r (rw (e, b, l) at h))
              (late s e b (ground arith))
        | inr l ↦ absurd (none-some r (rw (e, b, l) at h))
      ]
    ]
  ]

  state_round-Waits :
      (answer : Result SandboxStatus)
      → state_round target (some deadline) elapsed answer ≡ none
      → Waits target deadline elapsed answer
  unfolding state_round
  state_round-Waits (err e) h = absurd (ground arith)
  state_round-Waits (ok s) h = elim (Bool-cases (reached target s.state)) [
    | inl e ↦ absurd (none-some (ok s) (sym (rw e at h)))
    | inr e ↦ elim (Bool-cases (states_equal s.state error)) [
      | inl b ↦ absurd (none-some (err (entered_error s)) (sym (rw (e, b) at h)))
      | inr b ↦ elim (Bool-cases (leb deadline elapsed)) [
        | inl l ↦
            absurd (none-some (err (timeout "waiting for state" elapsed)) (sym (rw (e, b, l) at h)))
        | inr l ↦ (s, refl, e, b, ground arith)
      ]
    ]
  ]

-- Behind a poll at which the deadline is over, a round ends the wait.
state_round-over :
    (target : SandboxState) (deadline elapsed : ℕ) (answer : Result SandboxStatus)
    → deadline ≤ elapsed
    → state_round target (some deadline) elapsed answer ≢ none
state_round-over target deadline elapsed answer h e =
    let (s, a, b, c, l) = state_round-Waits target deadline elapsed answer e in absurd (omega arith)

-- A wait for a state with a deadline returns, at the latest at the first poll behind the deadline; it
-- returns the status that reached the state, the provider's error, the error state's reason or a
-- timeout as that poll gives it, and at each poll before it had still to wait.
pub wait_for_state-returns :
    (target : SandboxState) (interval deadline : ℕ) (polls : Polls) (n : ℕ)
    → deadline ≤ polls.elapsed n
    → (r : Result SandboxStatus) × (poll : ℕ) × (wait_for_state target
          (record { interval = interval; deadline = some deadline })
          polls
          (suc n)
        ≡ some r)
      × (poll ≤ n)
      × Verdict target deadline (polls.elapsed poll) (polls.describe poll) r
      × ((j : ℕ) → j < poll → Waits target deadline (polls.elapsed j) (polls.describe j))
unfolding wait_for_state
wait_for_state-returns target interval deadline polls n h =
    let round = state_round target (some deadline) in
    let (r, poll, o, p, e, q) =
      poll_loop-Decided round polls (suc n) 0 n (omega arith) (omega arith)
        (state_round-over target deadline (polls.elapsed n) (polls.describe n) h) in
    (
      r,
      poll,
      o,
      p,
      state_round-Verdict target deadline (polls.elapsed poll) (polls.describe poll) r e,
      λ j l.
          state_round-Waits target deadline (polls.elapsed j) (polls.describe j)
            (q j (omega arith) l),
    )

-- The deadline, if there is one, is not over.
abbrev pub InTime : Option ℕ → ℕ → Type 0
InTime none elapsed = Unit
InTime (some deadline) elapsed = elapsed < deadline

overdue-InTime :
    (operation : String) (deadline : Option ℕ) (elapsed : ℕ)
    → InTime deadline elapsed
    → overdue operation deadline elapsed ≡ none
overdue-InTime operation none elapsed h = refl
overdue-InTime operation (some deadline) elapsed h =
    let l : leb deadline elapsed ≡ false = ground arith in rw l refl

-- A poll that shows a state in transition, in time.
abbrev pub InTransition : WaitOptions → Polls → ℕ → Type 0
InTransition options polls j =
    (w : SandboxStatus) × (polls.describe j ≡ ok w)
    × (is_stable w.state ≡ false)
    × InTime options.deadline (polls.elapsed j)

stable_round-InTransition :
    (options : WaitOptions) (polls : Polls) (j : ℕ)
    → InTransition options polls j
    → round_at (stable_round options.deadline) polls j ≡ none
unfolding stable_round
stable_round-InTransition options polls j (w, e, u, t) =
    ap (stable_round options.deadline (polls.elapsed j)) e
    ∙ rw u (overdue-InTime "waiting for a stable state" options.deadline (polls.elapsed j) t)

-- A wait for a settled state, with any deadline or none, returns the first settled status that a poll
-- shows, where the polls before it show states in transition, in time.
pub wait_for_stable_state-settles :
    (options : WaitOptions) (polls : Polls) (n : ℕ) (s : SandboxStatus)
    → polls.describe n ≡ ok s
    → is_stable s.state ≡ true
    → ((j : ℕ) → j < n → InTransition options polls j)
    → wait_for_stable_state options polls (suc n) ≡ some (ok s)
unfolding wait_for_stable_state stable_round
wait_for_stable_state-settles options polls n s e t h =
    let round = stable_round options.deadline in
    let a : round_at round polls n ≡ some (ok s) =
      ap (stable_round options.deadline (polls.elapsed n)) e ∙ rw t refl in
    let (r, poll, o, p, f, q) =
      poll_loop-Decided round polls (suc n) 0 n (omega arith) (omega arith)
        (λ z. none-some (ok s) (sym z ∙ a)) in
    elim (Bool-cases (poll == n)) [
      | inl m ↦ o ∙ sym f ∙ ap (round_at round polls) ((==_iff poll n).0 m) ∙ a
      | inr m ↦ absurd (
          none-some r
            (sym (stable_round-InTransition options polls poll (h poll (ground arith))) ∙ f))
    ]
