-- ===== src/ControlQueue/Budget.antt =====
-- The byte budgets of the control queues (control.rs).
use sandbox_driver.Base.{
  ℕ, ◌+◌, ◌≤◌, ◌≡◌, subst, refl, sym, ap, inl, inr, Bool, true, false, Option, none, some, List, [],
  ◌∷◌, ◌++◌, length, length-append, ltb, leb, if◌then◌else◌, Bool-cases, arith,
}
use sandbox_driver.Error.{Result, ok, err}
use sandbox_driver.Limits.{TransportLimits}
use sandbox_driver.ControlQueue.{
  Message, message_size, Encoded, encode, Lane, Which, normal, events, priority, Control, queue,
  lane, set_lane, which_lane, enqueue, send_sized, send, recv, drop_encoded, total, close,
}
use sandbox_driver.ControlQueue.Order.{recv-Takes}

total-append : (a b : List Encoded) → total (a ++ b) ≡ total a + total b
total-append [] b = omega arith
total-append (e ∷ a) b = omega (arith, total-append a b)

abbrev same : Which → Which → Bool
same normal normal = true
same events events = true
same priority priority = true
same _ _ = false

-- What the messages that were received and not dropped hold of a lane's budget.
abbrev pub owed : Which → List (Which × Encoded) → ℕ
owed w [] = 0
owed w ((v, e) ∷ out) = (if same w v then e.permit else 0) + owed w out

owed-append : (w : Which) (a b : List (Which × Encoded)) → owed w (a ++ b) ≡ owed w a + owed w b
owed-append w [] b = omega arith
owed-append w ((v, e) ∷ a) b = omega (arith, owed-append w a b)

pub lane-set_lane :
    (v w : Which) (l : Lane) (c : Control)
    → lane v (set_lane w l c) ≡ (if same v w then l else lane v c)
lane-set_lane normal normal l c = refl
lane-set_lane normal events l c = refl
lane-set_lane normal priority l c = refl
lane-set_lane events normal l c = refl
lane-set_lane events events l c = refl
lane-set_lane events priority l c = refl
lane-set_lane priority normal l c = refl
lane-set_lane priority events l c = refl
lane-set_lane priority priority l c = refl

-- Both ends of the queues, with the messages that the writer holds.
pub record World : Type 0 where
  pub control : Control
  pub out : List (Which × Encoded)

pub data Act : Type 0 where
  sends : Message → Bool → Act
  receives drops closes : Act

abbrev pub on_recv : Option (Which × Encoded) × Control → List (Which × Encoded) → World
on_recv (none, c) out = record { control = c; out = out }
on_recv (some e, c) out = record { control = c; out = out ++ (e ∷ []) }

abbrev on_drop : Control → List (Which × Encoded) → World
on_drop c [] = record { control = c; out = [] }
on_drop c ((w, e) ∷ out) = record { control = drop_encoded w e c; out = out }

-- What a sender and the writer do; the writer drops messages in the order in which it received them.
unfoldable pub act : Act → World → World
act (sends message is_priority) w = record w { control = (send message is_priority w.control).1 }
act receives w = on_recv (recv w.control) w.out
act drops w = on_drop w.control w.out
act closes w = record w { control = close w.control }

abbrev pub act_all : List Act → World → World
act_all [] w = w
act_all (a ∷ acts) w = act_all acts (act a w)

abbrev pub budget : TransportLimits → Which → ℕ
budget limits normal = limits.queued_control_bytes
budget limits events = limits.event_queue_bytes
budget limits priority = limits.reserved_control_bytes

abbrev pub slots : TransportLimits → Which → ℕ
slots limits normal = limits.provider_requests
slots limits events = limits.event_queue_messages
slots limits priority = limits.reserved_requests

-- A lane whose permits, queued messages and outstanding messages make its budget, within its capacity.
abbrev Fair : ℕ → ℕ → ℕ → Lane → Type 0
Fair bytes messages out l =
    (l.permits + total l.queue + out ≡ bytes)
    × (length l.queue ≤ messages)
    × (l.capacity ≡ messages)

abbrev pub IsBudgeted : TransportLimits → World → Type 0
IsBudgeted limits w =
    (v : Which) → Fair (budget limits v) (slots limits v) (owed v w.out) (lane v w.control)

enqueue-Fair :
    (closed : Bool) (message : Message) (size bytes messages out : ℕ) (l : Lane)
    → Fair bytes messages out l
    → Fair bytes messages out (enqueue closed message size l).1
unfolding encode
enqueue-Fair closed message size bytes messages out l (b, q, c) =
    elim (Bool-cases (ltb l.permits size)) [
      | inl e ↦ rw e (b, q, c)
      | inr e ↦ elim (Bool-cases closed) [
        | inl d ↦ rw (e, d) (b, q, c)
        | inr d ↦ elim (Bool-cases (leb l.capacity (length l.queue))) [
          | inl f ↦ rw (e, d, f) (b, q, c)
          | inr f ↦
              rw (e, d, f)
                (let t = total-append l.queue (encode message size ∷ []) in
                  let n = length-append l.queue (encode message size ∷ []) in
                  (ground arith, ground arith, c))
        ]
      ]
    ]

set_lane-Fair :
    (limits : TransportLimits) (out : List (Which × Encoded)) (w : Which) (l : Lane) (c : Control)
    → IsBudgeted limits (record { control = c; out = out })
    → Fair (budget limits w) (slots limits w) (owed w out) l
    → IsBudgeted limits (record { control = set_lane w l c; out = out })
set_lane-Fair limits out normal l c h k normal = k
set_lane-Fair limits out normal l c h k events = h events
set_lane-Fair limits out normal l c h k priority = h priority
set_lane-Fair limits out events l c h k normal = h normal
set_lane-Fair limits out events l c h k events = k
set_lane-Fair limits out events l c h k priority = h priority
set_lane-Fair limits out priority l c h k normal = h normal
set_lane-Fair limits out priority l c h k events = h events
set_lane-Fair limits out priority l c h k priority = k

send_sized-IsBudgeted :
    (limits : TransportLimits) (out : List (Which × Encoded)) (message : Message)
    (is_priority : Bool) (c : Control) (size : Result ℕ)
    → IsBudgeted limits (record { control = c; out = out })
    → IsBudgeted limits (record { control = (send_sized message is_priority c size).1; out = out })
send_sized-IsBudgeted limits out message is_priority c (err e) h = h
send_sized-IsBudgeted limits out message is_priority c (ok size) h =
    let w = which_lane message.is_event is_priority in
    set_lane-Fair limits out w (enqueue c.closed message size (lane w c)).1 c h (
      enqueue-Fair c.closed message size (budget limits w) (slots limits w) (owed w out) (lane w c)
        (h w))

received-Fair :
    (v w : Which) (bytes messages : ℕ) (out : List (Which × Encoded)) (e : Encoded)
    (rest : List Encoded) (l : Lane)
    → l.queue ≡ e ∷ rest
    → same v w ≡ true
    → Fair bytes messages (owed v out) l
    → Fair bytes messages (owed v (out ++ ((w, e) ∷ []))) (record l { queue = rest })
received-Fair v w bytes messages out e rest l q s (b, n, c) =
    let a = owed-append v out ((w, e) ∷ []) in
    let t = ap total q in let k = ap length q in (ground arith, ground arith, c)

untouched-Fair :
    (v w : Which) (bytes messages : ℕ) (out : List (Which × Encoded)) (e : Encoded) (l : Lane)
    → same v w ≡ false
    → Fair bytes messages (owed v out) l
    → Fair bytes messages (owed v (out ++ ((w, e) ∷ []))) l
untouched-Fair v w bytes messages out e l s (b, n, c) =
    let a = owed-append v out ((w, e) ∷ []) in (ground arith, n, c)

recv-IsBudgeted :
    (limits : TransportLimits) (c : Control) (out : List (Which × Encoded)) (w : Which)
    (e : Encoded) (rest : List Encoded)
    → (lane w c).queue ≡ e ∷ rest
    → IsBudgeted limits (record { control = c; out = out })
    → IsBudgeted limits (record {
      control = set_lane w (record (lane w c) { queue = rest }) c;
      out = out ++ ((w, e) ∷ []);
    })
recv-IsBudgeted limits c out normal e rest q h normal =
    received-Fair normal normal (budget limits normal) (slots limits normal) out e rest
      (lane normal c) q refl (h normal)
recv-IsBudgeted limits c out normal e rest q h events =
    untouched-Fair events normal (budget limits events) (slots limits events) out e (lane events c)
      refl (h events)
recv-IsBudgeted limits c out normal e rest q h priority =
    untouched-Fair priority normal (budget limits priority) (slots limits priority) out e
      (lane priority c) refl (h priority)
recv-IsBudgeted limits c out events e rest q h normal =
    untouched-Fair normal events (budget limits normal) (slots limits normal) out e (lane normal c)
      refl (h normal)
recv-IsBudgeted limits c out events e rest q h events =
    received-Fair events events (budget limits events) (slots limits events) out e rest
      (lane events c) q refl (h events)
recv-IsBudgeted limits c out events e rest q h priority =
    untouched-Fair priority events (budget limits priority) (slots limits priority) out e
      (lane priority c) refl (h priority)
recv-IsBudgeted limits c out priority e rest q h normal =
    untouched-Fair normal priority (budget limits normal) (slots limits normal) out e
      (lane normal c) refl (h normal)
recv-IsBudgeted limits c out priority e rest q h events =
    untouched-Fair events priority (budget limits events) (slots limits events) out e
      (lane events c) refl (h events)
recv-IsBudgeted limits c out priority e rest q h priority =
    received-Fair priority priority (budget limits priority) (slots limits priority) out e rest
      (lane priority c) q refl (h priority)

drop-IsBudgeted :
    (limits : TransportLimits) (c : Control) (out : List (Which × Encoded)) (w : Which)
    (e : Encoded)
    → IsBudgeted limits (record { control = c; out = (w, e) ∷ out })
    → IsBudgeted limits (record { control = drop_encoded w e c; out = out })
unfolding drop_encoded
drop-IsBudgeted limits c out normal e h normal = let (b, n, k) = h normal in (omega arith, n, k)
drop-IsBudgeted limits c out normal e h events = let (b, n, k) = h events in (omega arith, n, k)
drop-IsBudgeted limits c out normal e h priority = let (b, n, k) = h priority in (omega arith, n, k)
drop-IsBudgeted limits c out events e h normal = let (b, n, k) = h normal in (omega arith, n, k)
drop-IsBudgeted limits c out events e h events = let (b, n, k) = h events in (omega arith, n, k)
drop-IsBudgeted limits c out events e h priority = let (b, n, k) = h priority in (omega arith, n, k)
drop-IsBudgeted limits c out priority e h normal = let (b, n, k) = h normal in (omega arith, n, k)
drop-IsBudgeted limits c out priority e h events = let (b, n, k) = h events in (omega arith, n, k)
drop-IsBudgeted limits c out priority e h priority =
    let (b, n, k) = h priority in (omega arith, n, k)

dropped :
    (limits : TransportLimits) (c : Control) (out : List (Which × Encoded))
    → IsBudgeted limits (record { control = c; out = out })
    → IsBudgeted limits (on_drop c out)
dropped limits c [] h = h
dropped limits c ((w, e) ∷ out) h = drop-IsBudgeted limits c out w e h

closed-IsBudgeted :
    (limits : TransportLimits) (w : World)
    → IsBudgeted limits w
    → IsBudgeted limits (record w { control = close w.control })
unfolding close
closed-IsBudgeted limits w h normal = let (b, n, k) = h normal in (omega arith, omega arith, k)
closed-IsBudgeted limits w h events = let (b, n, k) = h events in (omega arith, omega arith, k)
closed-IsBudgeted limits w h priority = let (b, n, k) = h priority in (omega arith, omega arith, k)

act-IsBudgeted :
    (limits : TransportLimits) (a : Act) (w : World)
    → IsBudgeted limits w
    → IsBudgeted limits (act a w)
unfolding act send
act-IsBudgeted limits (sends message is_priority) w h =
    send_sized-IsBudgeted limits w.out message is_priority w.control
      (message_size message w.control.max_message) h
act-IsBudgeted limits receives w h = elim (recv-Takes w.control) [
  | inl e ↦ subst (λ r. IsBudgeted limits (on_recv r w.out)) (sym e) h
  | inr (v, e, rest, q, r) ↦
      subst (λ x. IsBudgeted limits (on_recv x w.out)) (sym r)
        (recv-IsBudgeted limits w.control w.out v e rest q h)
]
act-IsBudgeted limits drops w h = dropped limits w.control w.out h
act-IsBudgeted limits closes w h = closed-IsBudgeted limits w h

act_all-IsBudgeted :
    (limits : TransportLimits) (acts : List Act) (w : World)
    → IsBudgeted limits w
    → IsBudgeted limits (act_all acts w)
act_all-IsBudgeted limits [] w h = h
act_all-IsBudgeted limits (a ∷ acts) w h =
    act_all-IsBudgeted limits acts (act a w) (act-IsBudgeted limits a w h)

abbrev pub fresh : TransportLimits → World
fresh limits = record { control = queue limits; out = [] }

fresh-IsBudgeted : (limits : TransportLimits) → IsBudgeted limits (fresh limits)
unfolding queue
fresh-IsBudgeted limits normal = (omega arith, omega arith, refl)
fresh-IsBudgeted limits events = (omega arith, omega arith, refl)
fresh-IsBudgeted limits priority = (omega arith, omega arith, refl)

-- Whatever is sent, received, dropped and closed, in any order: in each lane the permits that are left,
-- those of the queued messages and those of the messages that the writer holds make the lane's budget
-- of bytes, and no more messages are queued than it has slots.
pub run-IsBudgeted :
    (limits : TransportLimits) (acts : List Act) → IsBudgeted limits (act_all acts (fresh limits))
run-IsBudgeted limits acts = act_all-IsBudgeted limits acts (fresh limits) (fresh-IsBudgeted limits)
