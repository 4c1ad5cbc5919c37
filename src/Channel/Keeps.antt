-- ===== src/Channel/Keeps.antt =====
-- Each operation of the listener keeps its budgets (channel.rs, limits.rs).
use sandbox_driver.Base.{
  ℕ, ◌-◌, ◌/◌, ◌^◌, min, ◌≤◌, ◌<◌, ◌≡◌, refl, sym, ap, subst, ==_iff, inl, inr, Bool, true, Option,
  none, some, List, [], ◌∷◌, length, ltb, ◌==◌, member, member-erase, Bool-cases, arith,
}
use sandbox_driver.Error.{Result, ok, err, ◌>>=◌, ok_injective, Result-cases, transport, overloaded}
use sandbox_driver.Channel.{
  ChannelListener, Pending, OpenFrame, Connection, Json, TrustedPeer, lookup, forget, io_in_use,
  opens_in_use, acquire, guard, register, expect, arrive, leave, matched, authenticate, take_entry,
  claim, permits, registered, bytes_equal, deliver_of, sample, setup_samples, deliver,
  drop_receiver, accept, drop_reader, drop_writer, io_permit, without_one, drop_permit,
  stop_accepting,
}
use sandbox_driver.Channel.Permits.{
  IsBudgeted, length-forget, forget-found, member-forget, lookup-member, fewer, one_more,
}

permits-room :
    (l : ChannelListener) (u : Unit)
    → permits l ≡ ok u
    → (io_in_use l < l.limits.active_io) × (opens_in_use l < l.limits.pending_opens)
permits-room l u h =
    room l.accepting (io_in_use l) l.limits.active_io (opens_in_use l) l.limits.pending_opens h
  where
    room :
        (on : Bool) (a b c d : ℕ)
        → (guard on (transport "data listener failed") >>= λ _.
            acquire a b (overloaded "active_io") >>= λ _. acquire c d (overloaded "pending_opens"))
          ≡ ok u
        → (a < b) × (c < d)
    room on a b c d h = ground arith

registered-IsBudgeted :
    (r : Result {0} Unit) (l : ChannelListener) (now : ℕ) (token : List ℕ)
    → permits l ≡ r
    → IsBudgeted l
    → IsBudgeted (registered r l now token).1
registered-IsBudgeted (err e) l now token p h = h
registered-IsBudgeted (ok u) l now token p (i, o, h) =
    let (a, b) = permits-room l u p in
    let more =
      one_more (register l now token) l l.next_channel
        (λ x k. ground (arith, member-forget x l.next_channel l.pending)) in
    (omega arith, (let m = length-forget l.next_channel l.pending in ground arith), h)

pub expect-IsBudgeted :
    (l : ChannelListener) (now : ℕ) (token : List ℕ)
    → IsBudgeted l
    → IsBudgeted (expect l now token).1
unfolding expect
expect-IsBudgeted l now token h = registered-IsBudgeted (permits l) l now token refl h

pub arrive-IsBudgeted : (l : ChannelListener) → IsBudgeted l → IsBudgeted (arrive l).1
unfolding arrive
arrive-IsBudgeted l (i, o, h) =
    elim (Bool-cases (ltb l.handshakes l.limits.unauthenticated_handshakes)) [
      | inl e ↦ rw e (i, o, ground arith)
      | inr e ↦ rw e (i, o, h)
    ]

drop_receiver-fewer : (l : ChannelListener) (id : ℕ) → io_in_use (drop_receiver l id) ≤ io_in_use l
drop_receiver-fewer l id = fewer (drop_receiver l id) l (λ x k. ground (
  arith,
  member-forget x id l.pending,
  member-erase x id l.receivers,
  member-erase x id l.mailbox,
))

member_equal : (x y : ℕ) (xs : List ℕ) → (x == y) ≡ true → member y xs ≡ true → member x xs ≡ true
member_equal x y xs e h = subst (λ z. member z xs ≡ true) (sym ((==_iff x y).0 e)) h

matched-found :
    (o : Option Pending) (token : List ℕ) (p : Pending) → matched o token ≡ ok p → o ≡ some p
matched-found none token p h = ground arith
matched-found (some q) token p h = elim (Bool-cases (bytes_equal q.token token)) [
  | inl e ↦ ap some (ok_injective (rw e at h))
  | inr e ↦ absurd (ground arith)
]

claim_of-IsBudgeted :
    (json : Json) (l : ChannelListener) (frame : OpenFrame) (r : Result Pending)
    → matched (lookup frame.channel_id l.pending) frame.token ≡ r
    → IsBudgeted l
    → IsBudgeted (take_entry json l frame r).1
claim_of-IsBudgeted json l frame (err e) m (i, o, h) = (i, o, omega arith)
claim_of-IsBudgeted json l frame (ok p) m (i, o, h) =
    let found = matched-found (lookup frame.channel_id l.pending) frame.token p m in
    let less = fewer (take_entry json l frame (ok p)).1 l (λ x k.
      let w = lookup-member frame.channel_id l.pending p found in
      ground (arith, member-forget x frame.channel_id l.pending)) in
    let gone = forget-found frame.channel_id l.pending p found in (omega arith, ground arith, h)

pub claim-IsBudgeted :
    (json : Json) (peer : TrustedPeer) (l : ChannelListener) (c : Connection)
    → IsBudgeted l
    → IsBudgeted (claim json peer l c).1
unfolding claim
claim-IsBudgeted json peer l c (i, o, h) = elim (Result-cases (authenticate json peer c)) [
  | inl (frame, e) ↦ rw e (claim_of-IsBudgeted json l frame _ refl (i, o, h))
  | inr (f, e) ↦ rw e (i, o, omega arith)
]

sample-IsBudgeted :
    (l : ChannelListener) (elapsed : ℕ) → IsBudgeted l → IsBudgeted (sample l elapsed)
sample-IsBudgeted l elapsed h = elim (Bool-cases (length l.setup_us == setup_samples)) [
  | inl e ↦ rw e h
  | inr e ↦ rw e h
]

-- The admission's entry goes.
released-IsBudgeted :
    (l : ChannelListener) (id : ℕ)
    → IsBudgeted l
    → IsBudgeted (leave (record l { claimed = forget id l.claimed }))
released-IsBudgeted l id (i, o, h) =
    let less =
      fewer (leave (record l { claimed = forget id l.claimed })) l
        (λ x k. ground (arith, member-forget x id l.claimed)) in
    let gone = length-forget id l.claimed in (omega arith, ground arith, omega arith)

-- Its channel waits for the receiver.
mailed-IsBudgeted :
    (l : ChannelListener) (id : ℕ)
    → member id l.receivers ≡ true
    → IsBudgeted l
    → IsBudgeted (record l { mailbox = id ∷ l.mailbox })
mailed-IsBudgeted l id m (i, o, h) =
    let less =
      fewer (record l { mailbox = id ∷ l.mailbox }) l
        (λ x k. elim (Bool-cases (x == id)) [
          | inl e ↦ (let w = member_equal x id l.receivers e m in ground arith)
          | inr e ↦ ground arith
        ]) in
    (omega arith, o, h)

delivered-IsBudgeted :
    (l : ChannelListener) (id : ℕ) (acknowledged : Result {0} Unit) (now : ℕ) (o : Option Pending)
    → IsBudgeted l
    → IsBudgeted (deliver_of o l id acknowledged now).1
delivered-IsBudgeted l id acknowledged now none h = h
delivered-IsBudgeted l id (err f) now (some p) h = released-IsBudgeted l id h
delivered-IsBudgeted l id (ok u) now (some p) h = elim (Bool-cases (member id l.receivers)) [
  | inl m ↦ rw m (
      sample-IsBudgeted _ (min ((now - p.started) / 1000) (2 ^ 64 - 1)) (
        mailed-IsBudgeted (leave (record l { claimed = forget id l.claimed })) id m
          (released-IsBudgeted l id h)))
  | inr m ↦ rw m (released-IsBudgeted l id h)
]

pub deliver-IsBudgeted :
    (l : ChannelListener) (id : ℕ) (acknowledged : Result {0} Unit) (now : ℕ)
    → IsBudgeted l
    → IsBudgeted (deliver l id acknowledged now).1
unfolding deliver
deliver-IsBudgeted l id acknowledged now h =
    delivered-IsBudgeted l id acknowledged now (lookup id l.claimed) h

pub drop_receiver-IsBudgeted :
    (l : ChannelListener) (id : ℕ) → IsBudgeted l → IsBudgeted (drop_receiver l id)
drop_receiver-IsBudgeted l id (i, o, h) =
    let less = drop_receiver-fewer l id in
    let gone = length-forget id l.pending in (omega arith, ground arith, h)

pub accept-IsBudgeted :
    (l : ChannelListener) (id : ℕ) (timed_out : Bool)
    → IsBudgeted l
    → IsBudgeted (accept l id timed_out).1
unfolding accept
accept-IsBudgeted l id timed_out h = elim (Bool-cases (member id l.mailbox)) [
  | inl m ↦ rw m (
      let d = drop_receiver l id in
      let (i, o, k) = drop_receiver-IsBudgeted l id h in
      let less =
        fewer (record d { readers = id ∷ l.readers; writers = id ∷ l.writers }) l
          (λ x w. elim (Bool-cases (x == id)) [
            | inl e ↦ (let q = member_equal x id l.mailbox e m in ground arith)
            | inr e ↦ ground (
              arith,
              member-forget x id l.pending,
              member-erase x id l.receivers,
              member-erase x id l.mailbox,
            )
          ]) in
      (omega (arith, h.0), o, k))
  | inr m ↦ elim (Bool-cases timed_out) [
    | inl t ↦ rw (m, t) (drop_receiver-IsBudgeted l id h)
    | inr t ↦ rw (m, t) (drop_receiver-IsBudgeted l id h)
  ]
]

pub drop_reader-IsBudgeted :
    (l : ChannelListener) (id : ℕ) → IsBudgeted l → IsBudgeted (drop_reader l id)
drop_reader-IsBudgeted l id (i, o, h) =
    let less = fewer (drop_reader l id) l (λ x k. ground (arith, member-erase x id l.readers)) in
    (omega arith, o, h)

pub drop_writer-IsBudgeted :
    (l : ChannelListener) (id : ℕ) → IsBudgeted l → IsBudgeted (drop_writer l id)
drop_writer-IsBudgeted l id (i, o, h) =
    let less = fewer (drop_writer l id) l (λ x k. ground (arith, member-erase x id l.writers)) in
    (omega arith, o, h)

-- A clone adds no permit: its receiver holds one.
pub io_permit-IsBudgeted :
    (l : ChannelListener) (id : ℕ) → IsBudgeted l → IsBudgeted (io_permit l id)
io_permit-IsBudgeted l id (i, o, h) = elim (Bool-cases (member id l.receivers)) [
  | inl m ↦ rw m (
      let less =
        fewer (record l { lent = id ∷ l.lent }) l
          (λ x k. elim (Bool-cases (x == id)) [
            | inl e ↦ (let w = member_equal x id l.receivers e m in ground arith)
            | inr e ↦ ground arith
          ]) in
      (omega arith, o, h))
  | inr m ↦ rw m (i, o, h)
]

member-without_one :
    (x id : ℕ) (xs : List ℕ) → member x (without_one id xs) ≡ true → member x xs ≡ true
member-without_one x id [] k = ground arith
member-without_one x id (y ∷ ys) k = ground (arith, member-without_one x id ys)

pub drop_permit-IsBudgeted :
    (l : ChannelListener) (id : ℕ) → IsBudgeted l → IsBudgeted (drop_permit l id)
drop_permit-IsBudgeted l id (i, o, h) =
    let less = fewer (drop_permit l id) l (λ x k. ground (arith, member-without_one x id l.lent)) in
    (omega arith, o, h)

pub stop_accepting-IsBudgeted : (l : ChannelListener) → IsBudgeted l → IsBudgeted (stop_accepting l)
stop_accepting-IsBudgeted l (i, o, h) =
    let less = fewer (stop_accepting l) l (λ x k. ground arith) in
    (omega arith, omega arith, omega arith)
