-- ===== src/ControlQueue/Tests.antt =====
-- Runs of the control queues (control.rs).
use sandbox_driver.Base.{ℕ, ◌≡◌, refl, true, false, some, [], ◌∷◌, arith}
use sandbox_driver.Error.{overloaded, transport, ok, err}
use sandbox_driver.Limits.{TransportLimits, default}
use sandbox_driver.ControlQueue.{
  Message, priority, message_size, write_size, write_pieces, encode, queue, send, recv, close,
}
use sandbox_driver.ControlQueue.Budget.{
  sends, receives, drops, closes, act_all, fresh, IsBudgeted, run-IsBudgeted,
}
use sandbox_driver.ControlQueue.Priority.{send_others, send-priority}

-- `provider_requests` is 1, as in the test of the source.
abbrev limits : TransportLimits
limits = record default {
  control_message_bytes = 16;
  queued_control_bytes = 32;
  reserved_control_bytes = 16;
  event_queue_bytes = 16;
  event_queue_messages = 2;
  provider_requests = 1;
  reserved_requests = 1;
}

abbrev reply : ℕ → Message
reply id = record { pieces = (b'{' ∷ []) ∷ (id ∷ []) ∷ (b'}' ∷ []) ∷ []; is_event = false }

sized : message_size (reply b'3') 16 ≡ ok 4
unfolding message_size write_pieces write_size
sized = refl

second_refused :
    (send (reply b'2') false (send (reply b'1') false (queue limits)).1).0
    ≡ err (overloaded "queued_control_messages")
unfolding send queue message_size write_pieces write_size
second_refused = refl

closed_refused :
    (send (reply b'2') false (close (send (reply b'1') false (queue limits)).1)).0
    ≡ err (transport "control writer closed")
unfolding send queue close message_size write_pieces write_size encode
closed_refused = refl

send-priority_example :
    let sent = send (reply b'3') true (send_others (reply b'1' ∷ reply b'2' ∷ []) (queue limits)) in
    (sent.0 ≡ ok tt) × ((recv sent.1).0 ≡ some (priority, encode (reply b'3') 4))
send-priority_example =
    send-priority limits (reply b'1' ∷ reply b'2' ∷ []) (reply b'3') 4 refl sized (omega arith)
      (omega arith)

run-IsBudgeted_example : IsBudgeted limits (
    act_all
      (sends (reply b'1') false
        ∷ sends (reply b'2') true
        ∷ receives
        ∷ receives
        ∷ drops
        ∷ sends (reply b'3') false
        ∷ closes
        ∷ [])
      (fresh limits))
run-IsBudgeted_example = run-IsBudgeted limits (
    sends (reply b'1') false
    ∷ sends (reply b'2') true
    ∷ receives
    ∷ receives
    ∷ drops
    ∷ sends (reply b'3') false
    ∷ closes
    ∷ [])
