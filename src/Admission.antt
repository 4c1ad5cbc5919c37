-- ===== src/Admission.antt =====
-- The admission of a plugin's requests: `traits` (crates/sandbox-driver-protocol/src/methods.rs), and
-- `ServerState::admit`, the registration of streams, what the loop of `serve_with_limits` does with a
-- request and what a finished request gives back (crates/sandbox-driver-protocol/src/server/mod.rs,
-- services.rs). A semaphore is the number of its free permits. An I/O permit is shared with the channel
-- that a request opens, so it goes back on its own. How the answers are delivered is left out.
pub mod Budgets
pub mod Runs
pub mod Reserved
pub mod Tests
use sandbox_driver.Base.{
  ℕ, suc, ◌+◌, ◌-◌, Bool, true, false, ◌||◌, Option, none, some, List, [], ◌∷◌, String,
  if◌then◌else◌, ltb,
}
use sandbox_driver.Error.{Error, overloaded, invalid_spec, Result, ok, err}
use sandbox_driver.GitFailures.{bytes_of}
use sandbox_driver.GitBatch.{texts_equal}
use sandbox_driver.Registry.{Entries, try_insert, removed}

abbrev pub is_one_of : List ℕ → List (List ℕ) → Bool
is_one_of method [] = false
is_one_of method (name ∷ names) = texts_equal method name || is_one_of method names

abbrev pub reserved_methods : List (List ℕ)
reserved_methods =
    bytes_of "exec/stop"
    ∷ bytes_of "exec/stdio_terminate"
    ∷ bytes_of "pty/close"
    ∷ bytes_of "stream/cancel"
    ∷ bytes_of "shutdown"
    ∷ bytes_of "sandbox/stop"
    ∷ bytes_of "sandbox/delete"
    ∷ bytes_of "access/preview_release"
    ∷ bytes_of "transport/diagnostics"
    ∷ bytes_of "provider/health"
    ∷ []

abbrev pub io_methods : List (List ℕ)
io_methods =
    bytes_of "exec/stream"
    ∷ bytes_of "one_shot/run"
    ∷ bytes_of "exec/stdio_open"
    ∷ bytes_of "pty/open"
    ∷ bytes_of "logs/follow"
    ∷ bytes_of "fs/read"
    ∷ bytes_of "fs/write"
    ∷ bytes_of "snapshot/build_logs"
    ∷ []

abbrev pub stream_methods : List (List ℕ)
stream_methods = bytes_of "logs/follow" ∷ bytes_of "snapshot/build_logs" ∷ []

pub record MethodTraits : Type 0 where
  pub reserved : Bool
  pub uses_io : Bool
  pub owns_stream : Bool

unfoldable pub traits : List ℕ → MethodTraits
traits method = record {
  reserved = is_one_of method reserved_methods;
  uses_io = is_one_of method io_methods;
  owns_stream = is_one_of method stream_methods;
}

-- The budgets and the registered streams of `ServerState`.
pub record ServerState : Type 0 where
  pub request_budget : ℕ
  pub reserved_budget : ℕ
  pub io_budget : ℕ
  pub streams : Entries (Unit {0})

pub record Admission : Type 0 where
  pub priority : Bool
  pub io : Bool

-- `limits::acquire`
abbrev pub acquire : ℕ → String → Result ℕ
acquire free limit = if ltb 0 free then ok (free - 1) else err (overloaded limit)

abbrev pub set_request : Bool → ServerState → Result ℕ → Result ServerState
set_request priority s (err e) = err e
set_request true s (ok free) = ok (record s { reserved_budget = free })
set_request false s (ok free) = ok (record s { request_budget = free })

abbrev pub take_request : Bool → ServerState → Result ServerState
take_request true s = set_request true s (acquire s.reserved_budget "reserved_requests")
take_request false s = set_request false s (acquire s.request_budget "provider_requests")

abbrev pub return_request : Bool → ServerState → ServerState
return_request true s = record s { reserved_budget = s.reserved_budget + 1 }
return_request false s = record s { request_budget = s.request_budget + 1 }

abbrev pub return_io : Bool → ServerState → ServerState
return_io false s = s
return_io true s = record s { io_budget = s.io_budget + 1 }

-- Where the second permit is missing the first goes back.
abbrev pub set_io : Bool → ServerState → Result ℕ → Result Admission × ServerState
set_io priority s (err e) = (err e, return_request priority s)
set_io priority s (ok free) =
    (ok (record { priority = priority; io = true }), record s { io_budget = free })

abbrev pub take_io : Bool → Bool → ServerState → Result Admission × ServerState
take_io priority false s = (ok (record { priority = priority; io = false }), s)
take_io priority true s = set_io priority s (acquire s.io_budget "active_io")

abbrev pub on_request_permit :
    MethodTraits → ServerState → Result ServerState → Result Admission × ServerState
on_request_permit t s (err e) = (err e, s)
on_request_permit t s (ok s1) = take_io t.reserved t.uses_io s1

unfoldable pub admit : List ℕ → ServerState → Result Admission × ServerState
admit method s = let t = traits method in on_request_permit t s (take_request t.reserved s)

-- A request in flight, with the stream that it registered.
pub record Request : Type 0 where
  pub admission : Admission
  pub stream : Option (List ℕ)

-- The drop of an admission whose request never starts.
abbrev pub give_back : Admission → ServerState → ServerState
give_back a s = return_io a.io (return_request a.priority s)

abbrev pub on_registered :
    Admission
    → List ℕ
    → ServerState
    → Option (Unit {0}) × Entries (Unit {0})
    → Result Request × ServerState
on_registered a id s (none, streams) =
    (ok (record { admission = a; stream = some id }), record s { streams = streams })
on_registered a id s (some taken, streams) =
    (err (invalid_spec "stream_id" "duplicate stream id"), give_back a s)

abbrev pub register : Admission → Option (List ℕ) → ServerState → Result Request × ServerState
register a none s = (ok (record { admission = a; stream = none }), s)
register a (some id) s = on_registered a id s (try_insert id tt s.streams)

abbrev pub stream_of : Bool → Option (List ℕ) → Option (List ℕ)
stream_of true id = id
stream_of false id = none

abbrev pub on_admitted :
    Option (List ℕ) → Result Admission × ServerState → Result Request × ServerState
on_admitted id (ok a, s) = register a id s
on_admitted id (err e, s) = (err e, s)

-- What the loop of `serve` does with a request for a method, `shutdown` apart, and, in its parameters, a
-- stream id.
unfoldable pub start_request : List ℕ → Option (List ℕ) → ServerState → Result Request × ServerState
start_request method id s = on_admitted (stream_of (traits method).owns_stream id) (admit method s)

-- How a round of the loop ends: with a request in flight, with one that is refused, or with the loop.
pub data Round : Type 0 where
  started : Request → Round
  refused : Error → Round
  ended : Round

abbrev pub round_of : Result Request × ServerState → Round × ServerState
round_of (ok r, s) = (started r, s)
round_of (err e, s) = (refused e, s)

-- A round of the loop: `shutdown` is answered at once and ends it, before any admission.
unfoldable pub serve_request : List ℕ → Option (List ℕ) → ServerState → Round × ServerState
serve_request method id s =
    if texts_equal method (bytes_of "shutdown")
    then (ended, s)
    else round_of (start_request method id s)

abbrev pub unregister : Option (List ℕ) → ServerState → ServerState
unregister none s = s
unregister (some id) s = record s { streams = removed id s.streams }

-- The end of a request's task, whose request permit and registration are dropped.
unfoldable pub finish_request : Request → ServerState → ServerState
finish_request r s = unregister r.stream (return_request r.admission.priority s)
