-- ===== src/Admission/Budgets.antt =====
-- The budgets of a plugin's requests (server/mod.rs).
use sandbox_driver.Base.{
  ℕ, zero, suc, ◌+◌, ◌≡◌, Bool, true, false, not, Option, none, some, List, if◌then◌else◌, arith,
  String,
}
use sandbox_driver.Error.{Result, ok, err}
use sandbox_driver.Admission.{
  MethodTraits, traits, ServerState, Admission, acquire, set_request, take_request, return_request,
  set_io, take_io, on_request_permit, admit, Request, give_back, on_registered, stream_of,
  on_admitted, start_request,
}
use sandbox_driver.Registry.{try_insert}

abbrev pub one : Bool → ℕ
one true = 1
one false = 0

-- How many permits each budget has, and how many of them are out.
pub record Totals : Type 0 where
  pub ordinary : ℕ
  pub reserved : ℕ
  pub io : ℕ

-- The free permits and those that are out make each budget.
abbrev pub Balances : Totals → Totals → ServerState → Type 0
Balances budget held s =
    (s.request_budget + held.ordinary ≡ budget.ordinary)
    × (s.reserved_budget + held.reserved ≡ budget.reserved)
    × (s.io_budget + held.io ≡ budget.io)

abbrev pub with_admission : Admission → Totals → Totals
with_admission a held = record {
  ordinary = held.ordinary + one (not a.priority);
  reserved = held.reserved + one a.priority;
  io = held.io + one a.io;
}

abbrev Admits : Totals → Totals → Result Admission × ServerState → Type 0
Admits budget held (ok a, s) = Balances budget (with_admission a held) s
Admits budget held (err e, s) = Balances budget held s

abbrev Acquires : ℕ → Result ℕ → Type 0
Acquires free (ok rest) = rest + 1 ≡ free
Acquires free (err e) = Unit {0}

acquire-Acquires : (free : ℕ) (limit : String) → Acquires free (acquire free limit)
acquire-Acquires zero limit = tt
acquire-Acquires (suc free) limit = ground arith

abbrev pub with_request : Bool → Totals → Totals
with_request priority held = record held {
  ordinary = held.ordinary + one (not priority);
  reserved = held.reserved + one priority;
}

abbrev Takes : Totals → Totals → Bool → Result ServerState → Type 0
Takes budget held priority (ok s) = Balances budget (with_request priority held) s
Takes budget held priority (err e) = Unit {0}

set_request-Takes :
    (budget held : Totals) (priority : Bool) (s : ServerState) (r : Result ℕ)
    → Balances budget held s
    → Acquires (if priority then s.reserved_budget else s.request_budget) r
    → Takes budget held priority (set_request priority s r)
set_request-Takes budget held priority s (err e) h k = tt
set_request-Takes budget held true s (ok free) (a, b, c) k = (omega arith, omega arith, c)
set_request-Takes budget held false s (ok free) (a, b, c) k = (omega arith, omega arith, c)

take_request-Takes :
    (budget held : Totals) (priority : Bool) (s : ServerState)
    → Balances budget held s
    → Takes budget held priority (take_request priority s)
take_request-Takes budget held true s h =
    set_request-Takes budget held true s (acquire s.reserved_budget "reserved_requests") h
      (acquire-Acquires s.reserved_budget "reserved_requests")
take_request-Takes budget held false s h =
    set_request-Takes budget held false s (acquire s.request_budget "provider_requests") h
      (acquire-Acquires s.request_budget "provider_requests")

pub return_request-Balances :
    (budget held : Totals) (priority : Bool) (s : ServerState)
    → Balances budget (with_request priority held) s
    → Balances budget held (return_request priority s)
return_request-Balances budget held true s (a, b, c) = (omega arith, omega arith, c)
return_request-Balances budget held false s (a, b, c) = (omega arith, omega arith, c)

set_io-Admits :
    (budget held : Totals) (priority : Bool) (s : ServerState) (r : Result ℕ)
    → Balances budget (with_request priority held) s
    → Acquires s.io_budget r
    → Admits budget held (set_io priority s r)
set_io-Admits budget held priority s (err e) h k = return_request-Balances budget held priority s h
set_io-Admits budget held priority s (ok free) (a, b, c) k = (a, b, omega arith)

take_io-Admits :
    (budget held : Totals) (priority io : Bool) (s : ServerState)
    → Balances budget (with_request priority held) s
    → Admits budget held (take_io priority io s)
take_io-Admits budget held priority false s (a, b, c) = (a, b, omega arith)
take_io-Admits budget held priority true s h =
    set_io-Admits budget held priority s (acquire s.io_budget "active_io") h
      (acquire-Acquires s.io_budget "active_io")

on_request_permit-Admits :
    (budget held : Totals) (t : MethodTraits) (s : ServerState) (r : Result ServerState)
    → Balances budget held s
    → Takes budget held t.reserved r
    → Admits budget held (on_request_permit t s r)
on_request_permit-Admits budget held t s (err e) h k = h
on_request_permit-Admits budget held t s (ok s1) h k =
    take_io-Admits budget held t.reserved t.uses_io s1 k

abbrev pub Starts : Totals → Totals → Result Request × ServerState → Type 0
Starts budget held (ok r, s) = Balances budget (with_admission r.admission held) s
Starts budget held (err e, s) = Balances budget held s

give_back-Balances :
    (budget held : Totals) (priority io : Bool) (s : ServerState)
    → let a : Admission = record { priority = priority; io = io } in
      Balances budget (with_admission a held) s → Balances budget held (give_back a s)
give_back-Balances budget held true true s (a, b, c) = (omega arith, omega arith, omega arith)
give_back-Balances budget held true false s (a, b, c) = (omega arith, omega arith, omega arith)
give_back-Balances budget held false true s (a, b, c) = (omega arith, omega arith, omega arith)
give_back-Balances budget held false false s (a, b, c) = (omega arith, omega arith, omega arith)

on_registered-Starts :
    (budget held : Totals) (a : Admission) (id : List ℕ) (s : ServerState)
    (r : Option (Unit {0}) × List (List ℕ × Unit {0}))
    → Balances budget (with_admission a held) s
    → Starts budget held (on_registered a id s r)
on_registered-Starts budget held a id s (none, streams) h = h
on_registered-Starts budget held a id s (some taken, streams) h =
    give_back-Balances budget held a.priority a.io s h

on_admitted-Starts :
    (budget held : Totals) (id : Option (List ℕ)) (r : Result Admission × ServerState)
    → Admits budget held r
    → Starts budget held (on_admitted id r)
on_admitted-Starts budget held id (err e, s) h = h
on_admitted-Starts budget held none (ok a, s) h = h
on_admitted-Starts budget held (some id) (ok a, s) h =
    on_registered-Starts budget held a id s (try_insert id tt s.streams) h

pub start_request-Starts :
    (budget held : Totals) (method : List ℕ) (id : Option (List ℕ)) (s : ServerState)
    → Balances budget held s
    → Starts budget held (start_request method id s)
unfolding start_request admit
start_request-Starts budget held method id s h =
    let t = traits method in
    on_admitted-Starts budget held (stream_of t.owns_stream id) (admit method s) (
      on_request_permit-Admits budget held t s (take_request t.reserved s) h
        (take_request-Takes budget held t.reserved s h))
