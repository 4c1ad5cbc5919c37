-- ===== src/ControlQueue.antt =====
-- crates/sandbox-driver-protocol/src/control.rs: the bounded encoding of a control message, and the three
-- byte-accounted queues that the control writer drains. A message is what the JSON serializer writes
-- for it, piece by piece, with whether its method is the host event. A permit goes back when its
-- `Encoded` is dropped. A message fits `u32`, as its limit does.
pub mod Size
pub mod Order
pub mod Budget
pub mod Priority
pub mod Tests
use sandbox_driver.Base.{
  ℕ, zero, suc, ◌+◌, ◌-◌, Bool, true, false, Option, none, some, List, [], ◌∷◌, ◌++◌, length, ltb,
  leb, if◌then◌else◌,
}
use sandbox_driver.Error.{Error, limit_exceeded, overloaded, transport, Result, ok, err, ◌>>=◌}
use sandbox_driver.Limits.{TransportLimits}
use mathlib.Core.List.{flatten}

pub record Message : Type 0 where
  pub pieces : List (List ℕ)
  pub is_event : Bool

-- `MessageSize::write`: the number of bytes behind a write, or nothing, where it is refused.
unfoldable pub write_size : ℕ → ℕ → List ℕ → Option ℕ
write_size max_bytes bytes piece =
    if ltb (max_bytes - bytes) (length piece) then none else some (bytes + length piece)

abbrev pub then_write : (ℕ → Option ℕ) → Option ℕ → Option ℕ
then_write next none = none
then_write next (some bytes) = next bytes

unfoldable pub write_pieces : ℕ → List (List ℕ) → ℕ → Option ℕ
write_pieces max_bytes [] bytes = some bytes
write_pieces max_bytes (piece ∷ pieces) bytes =
    then_write (write_pieces max_bytes pieces) (write_size max_bytes bytes piece)

abbrev pub sized : ℕ → Option ℕ → Result ℕ
sized max_bytes none = err (limit_exceeded "control_message_bytes" max_bytes)
sized max_bytes (some bytes) = ok bytes

unfoldable pub message_size : Message → ℕ → Result ℕ
message_size message max_bytes = sized max_bytes (
    then_write (λ bytes. write_size max_bytes bytes (b'\n' ∷ []))
      (write_pieces max_bytes message.pieces 0))

-- `Encoded`: the bytes, and how many permits of the lane it holds.
pub record Encoded : Type 0 where
  pub bytes : List ℕ
  pub permit : ℕ

unfoldable pub encode : Message → ℕ → Encoded
encode message permit = record { bytes = flatten message.pieces ++ (b'\n' ∷ []); permit = permit }

-- A queue with its capacity in messages, and the permits for bytes that are left.
pub record Lane : Type 0 where
  pub queue : List Encoded
  pub capacity : ℕ
  pub permits : ℕ

pub data Which : Type 0 where
  normal events priority : Which

-- Sender and receiver together; `closed` where the receiver is gone.
pub record Control : Type 0 where
  pub normal_lane : Lane
  pub events_lane : Lane
  pub priority_lane : Lane
  pub max_message : ℕ
  pub closed : Bool

abbrev pub empty_lane : ℕ → ℕ → Lane
empty_lane capacity permits = record { queue = []; capacity = capacity; permits = permits }

unfoldable pub queue : TransportLimits → Control
queue limits = record {
  normal_lane = empty_lane limits.provider_requests limits.queued_control_bytes;
  events_lane = empty_lane limits.event_queue_messages limits.event_queue_bytes;
  priority_lane = empty_lane limits.reserved_requests limits.reserved_control_bytes;
  max_message = limits.control_message_bytes;
  closed = false;
}

abbrev pub lane : Which → Control → Lane
lane normal c = c.normal_lane
lane events c = c.events_lane
lane priority c = c.priority_lane

abbrev pub set_lane : Which → Lane → Control → Control
set_lane normal l c = record c { normal_lane = l }
set_lane events l c = record c { events_lane = l }
set_lane priority l c = record c { priority_lane = l }

-- The choice of the lane in `send`.
abbrev pub which_lane : Bool → Bool → Which
which_lane true is_priority = events
which_lane false true = priority
which_lane false false = normal

-- The permit and the slot; where there is no slot the permit goes back with the message.
abbrev pub enqueue : Bool → Message → ℕ → Lane → Result {0} Unit × Lane
enqueue closed message bytes l =
    if ltb l.permits bytes
    then (err (overloaded "queued_control_bytes"), l)
    else if closed
    then (err (transport "control writer closed"), l)
    else if leb l.capacity (length l.queue)
    then (err (overloaded "queued_control_messages"), l)
    else (
      ok tt,
      record l { queue = l.queue ++ (encode message bytes ∷ []); permits = l.permits - bytes },
    )

abbrev pub in_lane : Which → Control → Result {0} Unit × Lane → Result {0} Unit × Control
in_lane w c (r, l) = (r, set_lane w l c)

abbrev pub send_sized : Message → Bool → Control → Result ℕ → Result {0} Unit × Control
send_sized message is_priority c (err e) = (err e, c)
send_sized message is_priority c (ok bytes) =
    let w = which_lane message.is_event is_priority in
    in_lane w c (enqueue c.closed message bytes (lane w c))

unfoldable pub send : Message → Bool → Control → Result {0} Unit × Control
send message is_priority c = send_sized message is_priority c (message_size message c.max_message)

-- The first message of a lane.
abbrev pub take_from : Which → List Encoded → Control → Option (Which × Encoded) × Control
take_from w [] c = (none, c)
take_from w (e ∷ rest) c = (some (w, e), set_lane w (record (lane w c) { queue = rest }) c)

abbrev pub or_next :
    Option (Which × Encoded) × Control
    → (Control → Option (Which × Encoded) × Control)
    → Option (Which × Encoded) × Control
or_next (some e, c) next = (some e, c)
or_next (none, c) next = next c

-- `recv`, whose select is biased; nothing where it would wait. It names the lane, to whose budget the
-- permit belongs.
unfoldable pub recv : Control → Option (Which × Encoded) × Control
recv c = or_next (take_from priority c.priority_lane.queue c) (λ c1.
    or_next (take_from normal c1.normal_lane.queue c1)
      (λ c2. take_from events c2.events_lane.queue c2))

-- The drop of a message that was received.
unfoldable pub drop_encoded : Which → Encoded → Control → Control
drop_encoded w e c = let l = lane w c in set_lane w (record l { permits = l.permits + e.permit }) c

abbrev pub total : List Encoded → ℕ
total [] = 0
total (e ∷ messages) = e.permit + total messages

abbrev pub emptied : Lane → Lane
emptied l = record l { queue = []; permits = l.permits + total l.queue }

-- The drop of the receiver, which drops what is queued.
unfoldable pub close : Control → Control
close c = record c {
  normal_lane = emptied c.normal_lane;
  events_lane = emptied c.events_lane;
  priority_lane = emptied c.priority_lane;
  closed = true;
}
