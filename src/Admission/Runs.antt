-- ===== src/Admission/Runs.antt =====
-- Any run of a plugin's requests (server/mod.rs).
use sandbox_driver.Base.{
  ℕ, zero, suc, ◌+◌, ◌≡◌, refl, inl, inr, Bool, true, false, not, Bool-cases, Option, none, some,
  List, [], ◌∷◌, arith,
}
use sandbox_driver.Error.{Result, ok, err}
use sandbox_driver.GitFailures.{bytes_of}
use sandbox_driver.GitBatch.{texts_equal}
use sandbox_driver.Admission.{
  ServerState, return_request, return_io, Request, start_request, Round, started, refused, ended,
  round_of, serve_request, unregister, finish_request,
}
use sandbox_driver.Admission.Budgets.{
  one, Totals, Balances, Starts, return_request-Balances, start_request-Starts,
}

-- The loop of `serve`, which runs while `serving`; the requests in flight, and the I/O permits that they
-- or their channels hold.
pub record World : Type 0 where
  pub serving : Bool
  pub state : ServerState
  pub requests : List Request
  pub io_held : ℕ

pub data Act : Type 0 where
  arrives : List ℕ → Option (List ℕ) → Act
  finishes : ℕ → Act
  io_drops : Act
  ends : Act

abbrev on_round : World → Round × ServerState → World
on_round w (ended, s) = record w { serving = false; state = s }
on_round w (refused e, s) = record w { state = s }
on_round w (started r, s) = record w {
  state = s;
  requests = r ∷ w.requests;
  io_held = w.io_held + one r.admission.io;
}

-- Once the loop has ended, nothing that arrives is read.
abbrev arrive : List ℕ → Option (List ℕ) → World → Bool → World
arrive method id w true = on_round w (serve_request method id w.state)
arrive method id w false = w

-- The request at a position, and the others.
abbrev pick : ℕ → List Request → Option (Request × List Request)
pick n [] = none
pick zero (r ∷ rs) = some (r, rs)
pick (suc n) (r ∷ rs) = elim (pick n rs) [ none ↦ none | some q ↦ some (q.0, r ∷ q.1) ]

abbrev on_picked : World → Option (Request × List Request) → World
on_picked w none = w
on_picked w (some (r, rs)) = record w { state = finish_request r w.state; requests = rs }

abbrev drop_io : World → ℕ → World
drop_io w zero = w
drop_io w (suc held) = record w { state = return_io true w.state; io_held = held }

abbrev pub act : Act → World → World
act (arrives method id) w = arrive method id w w.serving
act (finishes n) w = on_picked w (pick n w.requests)
act io_drops w = drop_io w w.io_held
act ends w = record w { serving = false }

abbrev pub act_all : List Act → World → World
act_all [] w = w
act_all (a ∷ acts) w = act_all acts (act a w)

abbrev pub count_ordinary : List Request → ℕ
count_ordinary [] = 0
count_ordinary (r ∷ rs) = count_ordinary rs + one (not r.admission.priority)

abbrev pub count_reserved : List Request → ℕ
count_reserved [] = 0
count_reserved (r ∷ rs) = count_reserved rs + one r.admission.priority

abbrev pub held_by : World → Totals
held_by w = record {
  ordinary = count_ordinary w.requests;
  reserved = count_reserved w.requests;
  io = w.io_held;
}

abbrev pub IsBalanced : Totals → World → Type 0
IsBalanced budget w = Balances budget (held_by w) w.state

round_of-IsBalanced :
    (budget : Totals) (w : World) (r : Result Request × ServerState)
    → Starts budget (held_by w) r
    → IsBalanced budget (on_round w (round_of r))
round_of-IsBalanced budget w (err e, s) h = h
round_of-IsBalanced budget w (ok r, s) h = h

arrive-IsBalanced :
    (budget : Totals) (method : List ℕ) (id : Option (List ℕ)) (w : World) (serving : Bool)
    → IsBalanced budget w
    → IsBalanced budget (arrive method id w serving)
unfolding serve_request
arrive-IsBalanced budget method id w false h = h
arrive-IsBalanced budget method id w true h =
    elim (Bool-cases (texts_equal method (bytes_of "shutdown"))) [
      | inl e ↦ rw e h
      | inr e ↦ rw e (
          round_of-IsBalanced budget w (start_request method id w.state)
            (start_request-Starts budget (held_by w) method id w.state h))
    ]

abbrev Picks : List Request → Option (Request × List Request) → Type 0
Picks requests none = Unit {0}
Picks requests (some (r, rs)) =
    (count_ordinary requests ≡ count_ordinary rs + one (not r.admission.priority))
    × (count_reserved requests ≡ count_reserved rs + one r.admission.priority)

pick-later :
    (r : Request) (rs : List Request) (found : Option (Request × List Request))
    → Picks rs found
    → Picks (r ∷ rs) (elim found [ none ↦ none | some q ↦ some (q.0, r ∷ q.1) ])
pick-later r rs none h = tt
pick-later r rs (some (q, others)) (a, b) = (omega arith, omega arith)

pick-Picks : (n : ℕ) (requests : List Request) → Picks requests (pick n requests)
pick-Picks n [] = tt
pick-Picks zero (r ∷ rs) = (refl, refl)
pick-Picks (suc n) (r ∷ rs) = pick-later r rs (pick n rs) (pick-Picks n rs)

unregister-Balances :
    (budget held : Totals) (id : Option (List ℕ)) (s : ServerState)
    → Balances budget held s
    → Balances budget held (unregister id s)
unregister-Balances budget held none s h = h
unregister-Balances budget held (some id) s h = h

on_picked-IsBalanced :
    (budget : Totals) (w : World) (found : Option (Request × List Request))
    → Picks w.requests found
    → IsBalanced budget w
    → IsBalanced budget (on_picked w found)
unfolding finish_request
on_picked-IsBalanced budget w none p h = h
on_picked-IsBalanced budget w (some (r, rs)) (p, q) (a, b, c) =
    let held : Totals = record {
      ordinary = count_ordinary rs;
      reserved = count_reserved rs;
      io = w.io_held;
    } in
    unregister-Balances budget held r.stream (return_request r.admission.priority w.state) (
      return_request-Balances budget held r.admission.priority w.state
        (omega arith, omega arith, c))

drop_io-IsBalanced :
    (budget : Totals) (w : World) (held : ℕ)
    → w.io_held ≡ held
    → IsBalanced budget w
    → IsBalanced budget (drop_io w held)
drop_io-IsBalanced budget w zero e h = h
drop_io-IsBalanced budget w (suc held) e (a, b, c) = (a, b, omega arith)

act-IsBalanced :
    (budget : Totals) (a : Act) (w : World) → IsBalanced budget w → IsBalanced budget (act a w)
act-IsBalanced budget (arrives method id) w h = arrive-IsBalanced budget method id w w.serving h
act-IsBalanced budget (finishes n) w h =
    on_picked-IsBalanced budget w (pick n w.requests) (pick-Picks n w.requests) h
act-IsBalanced budget io_drops w h = drop_io-IsBalanced budget w w.io_held refl h
act-IsBalanced budget ends w h = h

act_all-IsBalanced :
    (budget : Totals) (acts : List Act) (w : World)
    → IsBalanced budget w
    → IsBalanced budget (act_all acts w)
act_all-IsBalanced budget [] w h = h
act_all-IsBalanced budget (a ∷ acts) w h =
    act_all-IsBalanced budget acts (act a w) (act-IsBalanced budget a w h)

-- `ServerState::new`
abbrev pub idle : Totals → World
idle budget = record {
  serving = true;
  state = record {
    request_budget = budget.ordinary;
    reserved_budget = budget.reserved;
    io_budget = budget.io;
    streams = [];
  };
  requests = [];
  io_held = 0;
}

-- Whatever requests arrive, are refused and finish, and whenever the loop ends: the free permits of each
-- budget and those that the requests in flight hold, or their channels, make the budget.
pub run-IsBalanced :
    (budget : Totals) (acts : List Act) → IsBalanced budget (act_all acts (idle budget))
run-IsBalanced budget acts =
    act_all-IsBalanced budget acts (idle budget) (omega arith, omega arith, omega arith)
