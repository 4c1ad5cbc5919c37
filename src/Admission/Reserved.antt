-- ===== src/Admission/Reserved.antt =====
-- The reserved budget of a plugin's requests (server/mod.rs).
use sandbox_driver.Base.{
  ℕ, ◌-◌, ◌<◌, ◌≡◌, ◌≢◌, refl, sym, subst, inl, inr, Bool, true, false, not, ◌&&◌, Bool-cases,
  Option, none, List, [], ◌∷◌, ltb, arith,
}
use sandbox_driver.Error.{ok}
use sandbox_driver.GitFailures.{bytes_of}
use sandbox_driver.GitBatch.{texts_equal}
use sandbox_driver.Status.Labels.{texts_equal→≡}
use sandbox_driver.Admission.{
  is_one_of, reserved_methods, io_methods, stream_methods, MethodTraits, traits, ServerState, admit,
  Request, take_request, start_request, serve_request, on_admitted, on_request_permit, stream_of,
}
use sandbox_driver.Admission.Budgets.{Totals}
use sandbox_driver.Admission.Runs.{
  World, Act, arrives, act, act_all, count_reserved, idle, run-IsBalanced,
}

abbrev disjoint : List (List ℕ) → List (List ℕ) → Bool
disjoint [] others = true
disjoint (name ∷ names) others = not (is_one_of name others) && disjoint names others

excluded :
    (method : List ℕ) (names others : List (List ℕ))
    → disjoint names others ≡ true
    → is_one_of method names ≡ true
    → is_one_of method others ≡ false
excluded method [] others h m = ground arith
excluded method (name ∷ names) others h m = elim (Bool-cases (texts_equal method name)) [
  | inl e ↦
      let other : is_one_of name others ≡ false = ground arith in
      subst (λ x. is_one_of x others ≡ false) (sym (texts_equal→≡ method name e)) other
  | inr e ↦ excluded method names others (ground arith) (rw e at m)
]

-- A request for a reserved method, in flight.
abbrev priority_request : Request
priority_request = record { admission = record { priority = true; io = false }; stream = none }

reserved-starts :
    (t : MethodTraits) (id : Option (List ℕ)) (s : ServerState)
    → t.reserved ≡ true
    → t.uses_io ≡ false
    → t.owns_stream ≡ false
    → 0 < s.reserved_budget
    → on_admitted (stream_of t.owns_stream id) (on_request_permit t s (take_request t.reserved s))
      ≡ (ok priority_request, record s { reserved_budget = s.reserved_budget - 1 })
reserved-starts t id s r i o b =
    let l : ltb 0 s.reserved_budget ≡ true = ground arith in rw (r, i, o, l) refl

start_request-priority :
    (method : List ℕ) (id : Option (List ℕ)) (s : ServerState)
    → (traits method).reserved ≡ true
    → 0 < s.reserved_budget
    → start_request method id s
      ≡ (ok priority_request, record s { reserved_budget = s.reserved_budget - 1 })
unfolding start_request admit traits
start_request-priority method id s r b =
    reserved-starts (traits method) id s r (excluded method reserved_methods io_methods refl r)
      (excluded method reserved_methods stream_methods refl r) b

distinct_texts : (s t : List ℕ) → s ≢ t → texts_equal s t ≡ false
distinct_texts s t n = elim (Bool-cases (texts_equal s t)) [
  | inl e ↦ absurd (n (texts_equal→≡ s t e))
  | inr e ↦ e
]

arrive-priority :
    (method : List ℕ) (id : Option (List ℕ)) (w : World)
    → w.serving ≡ true
    → method ≢ bytes_of "shutdown"
    → (traits method).reserved ≡ true
    → 0 < w.state.reserved_budget
    → (act (arrives method id) w).requests ≡ priority_request ∷ w.requests
unfolding serve_request
arrive-priority method id w v n r b =
    rw
      (
        v,
        distinct_texts method (bytes_of "shutdown") n,
        start_request-priority method id w.state r b,
      )
      refl

-- Whatever requests arrived before, while the loop runs: one for a reserved method, but for `shutdown`,
-- is started as a request with priority, as long as fewer of these are in flight than the reserved
-- budget has permits. Ordinary requests and channels do not hold it up.
pub arrives-reserved :
    (budget : Totals) (acts : List Act) (method : List ℕ) (id : Option (List ℕ))
    → (act_all acts (idle budget)).serving ≡ true
    → method ≢ bytes_of "shutdown"
    → (traits method).reserved ≡ true
    → count_reserved (act_all acts (idle budget)).requests < budget.reserved
    → let w = act_all acts (idle budget) in
      (r : Request) × (r.admission.priority ≡ true)
      × ((act (arrives method id) w).requests ≡ r ∷ w.requests)
arrives-reserved budget acts method id v n r b =
    let w = act_all acts (idle budget) in
    let (x, y, z) = run-IsBalanced budget acts in
    (priority_request, refl, arrive-priority method id w v n r (omega arith))
