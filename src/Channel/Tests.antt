-- ===== src/Channel/Tests.antt =====
-- A listener with one channel expected.
use sandbox_driver.Base.{ℕ, ◌≡◌, refl, true, false, Option, none, some, List, [], ◌∷◌, arith}
use sandbox_driver.Error.{ok}
use sandbox_driver.Frame.{open_frame}
use sandbox_driver.Channel.{
  Limits, peer_process, OpenFrame, Json, Connection, new_listener, claim, expect, authenticate,
  arrive, accept, deliver, io_in_use,
}
use sandbox_driver.Channel.Budget.{
  Event, expects, arrives, claims, delivers, accepts, lends, drops_receiver, drops_permit,
  happen_all, happen_all-IsBudgeted, happen,
}
use sandbox_driver.Channel.Permits.{IsBudgeted}
use sandbox_driver.Channel.Claim.{Admits, claim-Admits}
use sandbox_driver.Channel.Once.{admissions, NoRepeats, admissions-NoRepeats}

abbrev one_channel : Limits
one_channel = record { active_io = 1; pending_opens = 1; unauthenticated_handshakes = 1 }

-- The payload is the channel's id and the token.
abbrev frame_of : List ℕ → Option OpenFrame
frame_of [] = none
frame_of (id ∷ token) = some (record { channel_id = id; token = token; acknowledge = true })

abbrev plain : Json
plain = record { parse_open = frame_of }

abbrev connection : Connection
connection = record {
  credentials = ok (some 7, 0);
  first = some (ok (some (open_frame, 1 ∷ 9 ∷ [])));
}

abbrev run : List Event
run =
    expects 100 (9 ∷ [])
    ∷ lends 1
    ∷ arrives
    ∷ claims connection
    ∷ delivers 1 (ok tt) 105
    ∷ accepts 1 false
    ∷ arrives
    ∷ claims connection
    ∷ []

happen_all-IsBudgeted_example :
    IsBudgeted (happen_all plain (peer_process 7) run (new_listener one_channel))
happen_all-IsBudgeted_example =
    happen_all-IsBudgeted plain (peer_process 7) run (new_listener one_channel)
      (omega arith, omega arith, omega arith)

-- A clone keeps the permit that its receiver gives up.
permit_kept :
    io_in_use (
      happen_all plain
        (peer_process 7)
        (expects 100 (9 ∷ []) ∷ lends 1 ∷ drops_receiver 1 ∷ [])
        (new_listener one_channel))
    ≡ 1
unfolding happen_all happen expect
permit_kept = refl

permit_returned :
    io_in_use (
      happen_all plain
        (peer_process 7)
        (expects 100 (9 ∷ []) ∷ lends 1 ∷ drops_receiver 1 ∷ drops_permit 1 ∷ [])
        (new_listener one_channel))
    ≡ 0
unfolding happen_all happen expect
permit_returned = refl

claim-Admits_example :
    Admits plain
      (peer_process 7)
      (expect (new_listener one_channel) 100 (9 ∷ [])).1
      connection
      (claim plain (peer_process 7) (expect (new_listener one_channel) 100 (9 ∷ [])).1 connection)
claim-Admits_example =
    claim-Admits plain (peer_process 7) (expect (new_listener one_channel) 100 (9 ∷ [])).1
      connection

-- The second claim with the same token is refused.
claims_once : admissions plain (peer_process 7) run (new_listener one_channel) ≡ 1 ∷ []
unfolding claim authenticate expect happen arrive accept deliver
claims_once = refl

admissions-NoRepeats_example :
    NoRepeats plain
      (peer_process 7)
      (admissions plain (peer_process 7) run (new_listener one_channel))
admissions-NoRepeats_example =
    admissions-NoRepeats plain (peer_process 7) run (new_listener one_channel) (omega arith)
      (λ x k. ground arith)
