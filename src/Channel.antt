-- ===== src/Channel.antt =====
-- crates/sandbox-driver-protocol/src/channel.rs: `ChannelListener`, the registry of the data channels
-- that operations wait on. A permit of the I/O budget is an `Arc` that a pending entry, an admission,
-- a receiver, the halves of a channel and the clones that `io_permit` hands out share: it is in use
-- while any of them stands under its channel's id. A permit of the open budget is held by a pending entry, and by the admission that
-- took it. `claim` is `admit` up to the removal of the entry, `deliver` what follows it; other
-- operations may come between them. The JSON parser of the open frame is the parameter `Json`.
pub mod Permits
pub mod Keeps
pub mod Budget
pub mod Claim
pub mod Once
pub mod Tests
use sandbox_driver.Base.{
  ℕ, ◌+◌, ◌-◌, ◌/◌, ◌%◌, ◌^◌, min, Bool, true, false, not, ◌&&◌, ◌||◌, Option, none, some, List, [],
  ◌∷◌, ◌++◌, length, drop, ltb, ◌==◌, if◌then◌else◌, member, erase, distinct,
}
use sandbox_driver.Error.{Error, overloaded, invalid_spec, transport, Result, ok, err, ◌>>=◌}
use sandbox_driver.Frame.{FrameKind, open_frame}

abbrev pub setup_samples : ℕ
setup_samples = 4096

abbrev pub bytes_equal : List ℕ → List ℕ → Bool
bytes_equal [] [] = true
bytes_equal (a ∷ s) (b ∷ t) = a == b && bytes_equal s t
bytes_equal _ _ = false

-- The fields of `TransportLimits` that the listener reads.
pub record Limits : Type 0 where
  pub active_io : ℕ
  pub pending_opens : ℕ
  pub unauthenticated_handshakes : ℕ

pub data TrustedPeer : Type 0 where
  peer_process peer_user : ℕ → TrustedPeer

pub record OpenFrame : Type 0 where
  pub channel_id : ℕ
  pub token : List ℕ
  pub acknowledge : Bool

-- `serde_json::from_slice::<OpenFrame>`
pub record Json : Type 0 where
  pub parse_open : List ℕ → Option OpenFrame

pub record Pending : Type 0 where
  pub started : ℕ
  pub token : List ℕ

-- `claimed` holds the entries that an admission has taken, `mailbox` the channels that wait in a
-- receiver, `readers` and `writers` the halves of the channels handed out, `lent` the clones of the
-- receivers' permits; all by channel id.
pub record ChannelListener : Type 0 where
  pub limits : Limits
  pub accepting : Bool
  pub next_channel : ℕ
  pub pending : List (ℕ × Pending)
  pub claimed : List (ℕ × Pending)
  pub receivers : List ℕ
  pub mailbox : List ℕ
  pub readers : List ℕ
  pub writers : List ℕ
  pub lent : List ℕ
  pub handshakes : ℕ
  pub opened : ℕ
  pub lost : ℕ
  pub setup_us : List ℕ

abbrev pub keys : List (ℕ × Pending) → List ℕ
keys [] = []
keys ((id, _) ∷ entries) = id ∷ keys entries

abbrev pub lookup : ℕ → List (ℕ × Pending) → Option Pending
lookup id [] = none
lookup id ((key, p) ∷ entries) = let rest = lookup id entries in if id == key then some p else rest

abbrev pub forget : ℕ → List (ℕ × Pending) → List (ℕ × Pending)
forget id [] = []
forget id ((key, p) ∷ entries) =
    let rest = forget id entries in if id == key then rest else (key, p) ∷ rest

-- The ids under which an I/O permit is held.
abbrev pub holders : ChannelListener → List ℕ
holders l =
    keys l.pending
    ++ (keys l.claimed ++ (l.receivers ++ (l.mailbox ++ (l.readers ++ (l.writers ++ l.lent)))))

abbrev pub io_in_use : ChannelListener → ℕ
io_in_use l = distinct (holders l)

abbrev pub opens_in_use : ChannelListener → ℕ
opens_in_use l = length l.pending + length l.claimed

abbrev pub guard : Bool → Error → Result {0} Unit
guard b e = if b then ok tt else err e

-- `limits::acquire`, on the permits in use and the budget
abbrev pub acquire : ℕ → ℕ → Error → Result {0} Unit
acquire used budget e = guard (ltb used budget) e

abbrev pub new_listener : Limits → ChannelListener
new_listener limits = record {
  limits = limits;
  accepting = true;
  next_channel = 1;
  pending = [];
  claimed = [];
  receivers = [];
  mailbox = [];
  readers = [];
  writers = [];
  lent = [];
  handshakes = 0;
  opened = 0;
  lost = 0;
  setup_us = [];
}

-- The registration of `expect`, once the permits are there. The map's old entry, if any, goes.
abbrev pub register : ChannelListener → ℕ → List ℕ → ChannelListener
register l now token = record l {
  next_channel = (l.next_channel + 1) % 2 ^ 64;
  pending =
      (l.next_channel, record { started = now; token = token }) ∷ forget l.next_channel l.pending;
  receivers = l.next_channel ∷ l.receivers;
}

abbrev pub permits : ChannelListener → Result {0} Unit
permits l = do
  _ ← guard l.accepting (transport "data listener failed")
  _ ← acquire (io_in_use l) l.limits.active_io (overloaded "active_io")
  acquire (opens_in_use l) l.limits.pending_opens (overloaded "pending_opens")

abbrev pub registered : Result {0} Unit → ChannelListener → ℕ → List ℕ → Result ℕ × ChannelListener
registered (err e) l now token = (err e, l)
registered (ok _) l now token = (ok l.next_channel, register l now token)

-- `ChannelListener::expect`: the id of the request, whose token is `token`.
unfoldable pub expect : ChannelListener → ℕ → List ℕ → Result ℕ × ChannelListener
expect l now token = registered (permits l) l now token

-- A connection that arrives takes a permit of the handshake budget, or is dropped.
unfoldable pub arrive : ChannelListener → Bool × ChannelListener
arrive l =
    if ltb l.handshakes l.limits.unauthenticated_handshakes
    then (true, record l { handshakes = l.handshakes + 1 })
    else (false, l)

-- The end of an admission's task.
abbrev pub leave : ChannelListener → ChannelListener
leave l = record l { handshakes = l.handshakes - 1 }

-- What a connection brings: the peer's process and user, and the first frame; `none` where the
-- read has timed out.
pub record Connection : Type 0 where
  pub credentials : Result (Option ℕ × ℕ)
  pub first : Option (Result (Option (FrameKind × List ℕ)))

abbrev pub is_allowed : TrustedPeer → Option ℕ × ℕ → Bool
is_allowed (peer_process pid) (none, uid) = false
is_allowed (peer_process pid) (some p, uid) = p == pid
is_allowed (peer_user u) (pid, uid) = uid == u

abbrev is_open_kind : FrameKind → Bool
is_open_kind open_frame = true
is_open_kind _ = false

abbrev open_payload : Option (Result (Option (FrameKind × List ℕ))) → Result (List ℕ)
open_payload none = err (transport "data channel open timed out")
open_payload (some (err e)) = err e
open_payload (some (ok none)) =
    err (invalid_spec "frame" "the first frame on a data channel must be open")
open_payload (some (ok (some (kind, payload)))) =
    if is_open_kind kind
    then ok payload
    else err (invalid_spec "frame" "the first frame on a data channel must be open")

abbrev open_of : Option OpenFrame → Result OpenFrame
open_of none = err (invalid_spec "frame" "invalid open frame")
open_of (some frame) = ok frame

-- The match on the map's entry.
abbrev pub matched : Option Pending → List ℕ → Result Pending
matched none token = err (invalid_spec "channel_id" "no operation is waiting on the channel")
matched (some p) token =
    if bytes_equal p.token token
    then ok p
    else err (invalid_spec "token" "data channel token mismatch")

module _ (json : Json) where
  -- `admit` up to the open frame.
  unfoldable pub authenticate : TrustedPeer → Connection → Result OpenFrame
  authenticate peer c = do
    credentials ← c.credentials
    _ ← guard (is_allowed peer credentials) (invalid_spec "peer" "unexpected data channel peer")
    payload ← open_payload c.first
    open_of (json.parse_open payload)

  abbrev pub take_entry :
      ChannelListener → OpenFrame → Result Pending → Result (OpenFrame) × ChannelListener
  take_entry l frame (err e) = (err e, leave l)
  take_entry l frame (ok p) = (
    ok frame,
    record l {
      pending = forget frame.channel_id l.pending;
      claimed = (frame.channel_id, p) ∷ l.claimed;
    },
  )

  abbrev pub claim_of : ChannelListener → Result OpenFrame → Result OpenFrame × ChannelListener
  claim_of l (err e) = (err e, leave l)
  claim_of l (ok frame) =
      take_entry l frame (matched (lookup frame.channel_id l.pending) frame.token)

  unfoldable pub claim :
      TrustedPeer → ChannelListener → Connection → Result OpenFrame × ChannelListener
  claim peer l c = claim_of l (authenticate peer c)

-- The bounded list of samples of `admit`.
abbrev pub sample : ChannelListener → ℕ → ChannelListener
sample l elapsed =
    if length l.setup_us == setup_samples
    then record l {
      opened = l.opened + 1;
      lost = l.lost + 1;
      setup_us = drop 1 l.setup_us ++ (elapsed ∷ []);
    }
    else record l { opened = l.opened + 1; setup_us = l.setup_us ++ (elapsed ∷ []) }

-- `sender.send(channel)`: it fails when the receiver is gone.
abbrev pub sent : ChannelListener → ℕ → ℕ → Result {0} Unit × ChannelListener
sent l id elapsed =
    if member id l.receivers
    then (ok tt, sample (record l { mailbox = id ∷ l.mailbox }) elapsed)
    else (err (transport "the operation stopped waiting for its data channel"), l)

abbrev pub answered : Result {0} Unit → ChannelListener → ℕ → ℕ → Result {0} Unit × ChannelListener
answered (err e) l id elapsed = (err e, l)
answered (ok _) l id elapsed = sent l id elapsed

abbrev pub deliver_of :
    Option Pending → ChannelListener → ℕ → Result {0} Unit → ℕ → Result {0} Unit × ChannelListener
deliver_of none l id acknowledged now = (err (transport "no admission"), l)
deliver_of (some p) l id acknowledged now =
    answered acknowledged (leave (record l { claimed = forget id l.claimed })) id
      (min ((now - p.started) / 1000) (2 ^ 64 - 1))

-- `admit` behind the removal; `acknowledged` is what the write of the acknowledgement gave, `ok`
-- where none is wanted.
unfoldable pub deliver :
    ChannelListener → ℕ → Result {0} Unit → ℕ → Result {0} Unit × ChannelListener
deliver l id acknowledged now = deliver_of (lookup id l.claimed) l id acknowledged now

-- `Drop` of `ChannelReceiver`; a channel that it holds goes with it.
abbrev pub drop_receiver : ChannelListener → ℕ → ChannelListener
drop_receiver l id = record l {
  pending = forget id l.pending;
  receivers = erase id l.receivers;
  mailbox = erase id l.mailbox;
}

-- `ChannelReceiver::accept`, with whether its time is up first.
unfoldable pub accept : ChannelListener → ℕ → Bool → Result {0} Unit × ChannelListener
accept l id timed_out =
    let dropped = drop_receiver l id in
    if member id l.mailbox
    then (ok tt, record dropped { readers = id ∷ l.readers; writers = id ∷ l.writers })
    else if timed_out
    then (err (transport "data channel open timed out"), dropped)
    else (err (transport "the data channel was dropped before the plugin connected"), dropped)

abbrev pub drop_reader : ChannelListener → ℕ → ChannelListener
drop_reader l id = record l { readers = erase id l.readers }

abbrev pub drop_writer : ChannelListener → ℕ → ChannelListener
drop_writer l id = record l { writers = erase id l.writers }

-- `ChannelReceiver::io_permit`, which only a receiver that is still there can be asked for.
abbrev pub io_permit : ChannelListener → ℕ → ChannelListener
io_permit l id = if member id l.receivers then record l { lent = id ∷ l.lent } else l

-- The list without one of the copies of a number.
abbrev pub without_one : ℕ → List ℕ → List ℕ
without_one id [] = []
without_one id (x ∷ xs) = let rest = without_one id xs in if id == x then xs else x ∷ rest

-- The drop of a clone.
abbrev pub drop_permit : ChannelListener → ℕ → ChannelListener
drop_permit l id = record l { lent = without_one id l.lent }

-- A fatal error of the accept task, and `Drop` of the listener: the pending entries go, and the
-- admissions of the task's join set with it.
abbrev pub stop_accepting : ChannelListener → ChannelListener
stop_accepting l = record l { accepting = false; pending = []; claimed = []; handshakes = 0 }
