-- ===== src/Limits.antt =====
-- crates/sandbox-driver-protocol/src/limits.rs: `TransportLimits` with its defaults and `validate`.
-- Durations are nanoseconds. `max_permits` is the semaphore's `MAX_PERMITS`.
pub mod Valid
pub mod Tests
use sandbox_driver.Base.{
  ℕ, ◌*◌, ◌^◌, ◌-◌, min, Bool, true, false, ◌||◌, List, [], ◌∷◌, String, ◌==◌, ltb, if◌then◌else◌,
}
use sandbox_driver.Error.{Error, invalid_spec, Result, ok, err, ◌>>=◌}

pub record TransportLimits : Type 0 where
  pub active_io : ℕ
  pub pending_opens : ℕ
  pub unauthenticated_handshakes : ℕ
  pub provider_requests : ℕ
  pub reserved_requests : ℕ
  pub control_message_bytes : ℕ
  pub queued_control_bytes : ℕ
  pub reserved_control_bytes : ℕ
  pub event_queue_bytes : ℕ
  pub event_queue_messages : ℕ
  pub retained_output_bytes : ℕ
  pub buffered_value_bytes : ℕ
  pub cached_handles : ℕ
  pub output_progress_timeout : ℕ
  pub hard_cancel_drain_timeout : ℕ
  pub open_timeout : ℕ
  pub shutdown_timeout : ℕ

abbrev pub seconds : ℕ → ℕ
seconds n = n * 1000000000

abbrev pub counts : TransportLimits → List (String × ℕ)
counts l =
    ("active_io", l.active_io)
    ∷ ("pending_opens", l.pending_opens)
    ∷ ("unauthenticated_handshakes", l.unauthenticated_handshakes)
    ∷ ("provider_requests", l.provider_requests)
    ∷ ("reserved_requests", l.reserved_requests)
    ∷ ("control_message_bytes", l.control_message_bytes)
    ∷ ("queued_control_bytes", l.queued_control_bytes)
    ∷ ("reserved_control_bytes", l.reserved_control_bytes)
    ∷ ("event_queue_bytes", l.event_queue_bytes)
    ∷ ("event_queue_messages", l.event_queue_messages)
    ∷ ("retained_output_bytes", l.retained_output_bytes)
    ∷ ("buffered_value_bytes", l.buffered_value_bytes)
    ∷ ("cached_handles", l.cached_handles)
    ∷ []

abbrev pub durations : TransportLimits → List (String × ℕ)
durations l =
    ("output_progress_timeout", l.output_progress_timeout)
    ∷ ("hard_cancel_drain_timeout", l.hard_cancel_drain_timeout)
    ∷ ("open_timeout", l.open_timeout)
    ∷ ("shutdown_timeout", l.shutdown_timeout)
    ∷ []

-- The loop over names and values, which stops at the first value that is zero or over `most`.
abbrev pub check : ℕ → String → List (String × ℕ) → Result {0} Unit
check most reason [] = ok tt
check most reason ((name, value) ∷ rest) =
    let checked = check most reason rest in
    if value == 0 || ltb most value then err (invalid_spec name reason) else checked

abbrev pub budget_reason : String
budget_reason = "must be positive and fit the transport budget"

abbrev pub duration_reason : String
duration_reason = "must be positive and at most one day"

unfoldable pub validate : ℕ → TransportLimits → Result {0} Unit
validate max_permits l =
    check (min max_permits (2 ^ 32 - 1)) budget_reason (counts l)
    >>= (λ done. check (seconds 86400) duration_reason (durations l))

abbrev pub default : TransportLimits
default = record {
  active_io = 1024;
  pending_opens = 1024;
  unauthenticated_handshakes = 64;
  provider_requests = 2048;
  reserved_requests = 64;
  control_message_bytes = 1024 * 1024;
  queued_control_bytes = 8 * 1024 * 1024;
  reserved_control_bytes = 1024 * 1024;
  event_queue_bytes = 1024 * 1024;
  event_queue_messages = 256;
  retained_output_bytes = 16 * 1024 * 1024;
  buffered_value_bytes = 16 * 1024 * 1024;
  cached_handles = 4096;
  output_progress_timeout = seconds 30;
  hard_cancel_drain_timeout = seconds 5;
  open_timeout = seconds 10;
  shutdown_timeout = seconds 5;
}
