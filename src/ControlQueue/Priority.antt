-- ===== src/ControlQueue/Priority.antt =====
-- The reserved capacity of priority messages (control.rs).
use sandbox_driver.Base.{
  ℕ, ◌-◌, ◌≤◌, ◌<◌, ◌≡◌, refl, ap, ◌∙◌, Bool, true, false, some, List, [], ◌∷◌, ◌++◌, length, ltb,
  leb, arith,
}
use sandbox_driver.Error.{Result, ok, err}
use sandbox_driver.Limits.{TransportLimits}
use sandbox_driver.ControlQueue.{
  Message, message_size, encode, Lane, priority, Control, queue, lane, which_lane, enqueue, in_lane,
  send_sized, send, recv,
}
use sandbox_driver.ControlQueue.Order.{recv-priority}

-- Sends that are no priority sends.
abbrev pub send_others : List Message → Control → Control
send_others [] c = c
send_others (m ∷ messages) c = send_others messages (send m false c).1

-- What a send without priority leaves alone.
abbrev Leaves : Control → Control → Type 0
Leaves before after =
    (after.priority_lane ≡ before.priority_lane)
    × (after.max_message ≡ before.max_message)
    × (after.closed ≡ before.closed)

in_lane-Leaves :
    (event : Bool) (c : Control) (r : Result {0} Unit × Lane)
    → Leaves c (in_lane (which_lane event false) c r).1
in_lane-Leaves true c (r, l) = (refl, refl, refl)
in_lane-Leaves false c (r, l) = (refl, refl, refl)

send_sized-Leaves :
    (m : Message) (c : Control) (size : Result ℕ) → Leaves c (send_sized m false c size).1
send_sized-Leaves m c (err e) = (refl, refl, refl)
send_sized-Leaves m c (ok size) =
    in_lane-Leaves m.is_event c (enqueue c.closed m size (lane (which_lane m.is_event false) c))

send_others-Leaves : (messages : List Message) (c : Control) → Leaves c (send_others messages c)
unfolding send
send_others-Leaves [] c = (refl, refl, refl)
send_others-Leaves (m ∷ messages) c =
    let (a, b, d) = send_others-Leaves messages (send m false c).1 in
    let (x, y, z) = send_sized-Leaves m c (message_size m c.max_message) in (a ∙ x, b ∙ y, d ∙ z)

-- The state behind a priority send that finds room.
abbrev queued : Message → ℕ → Control → Control
queued m size c = record c {
  priority_lane = record c.priority_lane {
    queue = c.priority_lane.queue ++ (encode m size ∷ []);
    permits = c.priority_lane.permits - size;
  };
}

enqueue-room :
    (m : Message) (size : ℕ) (l : Lane)
    → ltb l.permits size ≡ false
    → leb l.capacity (length l.queue) ≡ false
    → enqueue false m size l
      ≡ (ok tt, record l { queue = l.queue ++ (encode m size ∷ []); permits = l.permits - size })
enqueue-room m size l p q = rw (p, q) refl

-- What is left of a priority lane as `queue` makes it.
abbrev HasRoom : ℕ → Control → Type 0
HasRoom size c =
    (c.closed ≡ false)
    × (c.priority_lane.queue ≡ [])
    × (ltb c.priority_lane.permits size ≡ false)
    × (leb c.priority_lane.capacity 0 ≡ false)

send-HasRoom :
    (m : Message) (size : ℕ) (c : Control)
    → m.is_event ≡ false
    → message_size m c.max_message ≡ ok size
    → HasRoom size c
    → send m true c ≡ (ok tt, queued m size c)
unfolding send
send-HasRoom m size c v s (d, q, p, k) = rw (s, v, d, p, q, k) refl

queued-first :
    (m : Message) (size : ℕ) (c : Control)
    → c.priority_lane.queue ≡ []
    → (recv (queued m size c)).0 ≡ some (priority, encode m size)
queued-first m size c q =
    ap (λ r. r.0)
      (recv-priority (queued m size c) (encode m size ∷ []) (ap (λ l. l ++ (encode m size ∷ [])) q))

untouched-HasRoom :
    (size : ℕ) (limits : TransportLimits) (c : Control)
    → size ≤ limits.reserved_control_bytes
    → 0 < limits.reserved_requests
    → Leaves (queue limits) c
    → HasRoom size c
unfolding queue
untouched-HasRoom size limits c b r (l, x, d) =
    let q = ap (λ k. k.queue) l in
    let p = ap (λ k. k.permits) l in
    let k = ap (λ k. k.capacity) l in (d, q, ground arith, ground arith)

-- However many messages without priority were sent before, a message with priority whose size is in the
-- limit of a message and in the reserved bytes is accepted, where a request is reserved, and it is the
-- first to be received.
pub send-priority :
    (limits : TransportLimits) (others : List Message) (m : Message) (size : ℕ)
    → m.is_event ≡ false
    → message_size m limits.control_message_bytes ≡ ok size
    → size ≤ limits.reserved_control_bytes
    → 0 < limits.reserved_requests
    → let sent = send m true (send_others others (queue limits)) in
      (sent.0 ≡ ok tt) × ((recv sent.1).0 ≡ some (priority, encode m size))
unfolding queue
send-priority limits others m size v s b r =
    let c = send_others others (queue limits) in
    let leaves = send_others-Leaves others (queue limits) in
    let room = untouched-HasRoom size limits c b r leaves in
    let max : c.max_message ≡ limits.control_message_bytes = leaves.1 in
    let sent = send-HasRoom m size c v (ap (message_size m) max ∙ s) room in
    (ap (λ r. r.0) sent, ap (λ r. (recv r.1).0) sent ∙ queued-first m size c room.1)
