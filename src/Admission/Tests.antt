-- ===== src/Admission/Tests.antt =====
-- Runs of the admission (server/mod.rs).
use sandbox_driver.Base.{ℕ, ◌≡◌, refl, true, Option, none, some, List, [], ◌∷◌, arith}
use sandbox_driver.Error.{overloaded, invalid_spec, err}
use sandbox_driver.GitFailures.{bytes_of}
use sandbox_driver.Registry.{get, try_insert, insert, removed}
use sandbox_driver.Admission.{traits, admit, Request, start_request, serve_request}
use sandbox_driver.Admission.Budgets.{Totals}
use sandbox_driver.Admission.Runs.{
  Act, arrives, finishes, io_drops, act, act_all, IsBalanced, idle, run-IsBalanced,
}
use sandbox_driver.Admission.Reserved.{arrives-reserved}

abbrev budget : Totals
budget = record { ordinary = 1; reserved = 1; io = 1 }

-- The second read is refused, the first one goes on.
abbrev acts : List Act
acts = arrives (bytes_of "fs/read") none ∷ arrives (bytes_of "fs/read") none ∷ []

refused :
    (start_request (bytes_of "fs/read") none (act_all acts (idle budget)).state).0
    ≡ err (overloaded "provider_requests")
unfolding serve_request start_request admit traits
refused = refl

duplicate :
    let wide : Totals = record { ordinary = 2; reserved = 1; io = 2 } in
    let id : Option (List ℕ) = some (b'1' ∷ []) in
    let w = act (arrives (bytes_of "logs/follow") id) (idle wide) in
    (start_request (bytes_of "logs/follow") id w.state).0
    ≡ err (invalid_spec "stream_id" "duplicate stream id")
unfolding serve_request start_request admit traits try_insert get insert removed
duplicate = refl

run-IsBalanced_example :
    IsBalanced budget
      (act_all (arrives (bytes_of "fs/read") none ∷ finishes 0 ∷ io_drops ∷ []) (idle budget))
run-IsBalanced_example =
    run-IsBalanced budget (arrives (bytes_of "fs/read") none ∷ finishes 0 ∷ io_drops ∷ [])

-- `shutdown` ends the loop, behind which nothing is started.
ends_loop : (act_all (arrives (bytes_of "shutdown") none ∷ acts) (idle budget)).requests ≡ []
unfolding serve_request
ends_loop = refl

arrives-reserved_example :
    let w = act_all acts (idle budget) in
    (r : Request) × (r.admission.priority ≡ true)
    × ((act (arrives (bytes_of "exec/stop") none) w).requests ≡ r ∷ w.requests)
unfolding serve_request start_request admit traits
arrives-reserved_example =
    arrives-reserved budget acts (bytes_of "exec/stop") none refl (λ e. ground arith) refl
      (omega arith)
