-- ===== src/Channel/Once.antt =====
-- A channel is admitted at most once (channel.rs).
use sandbox_driver.Base.{
  ℕ, ◌+◌, ◌≤◌, ◌<◌, ◌^◌, ◌%◌, ◌≡◌, refl, sym, ap, subst, ◌∙◌, ◌⊎◌, inl, inr, Bool, true, false,
  Option, none, some, List, [], ◌∷◌, length, ltb, ◌-◌, ◌/◌, min, ◌==◌, ==_iff, member, Bool-cases,
  arith,
}
use sandbox_driver.Error.{Result, ok, err, Result-cases}
use sandbox_driver.Channel.{
  ChannelListener, Pending, OpenFrame, Connection, Json, TrustedPeer, keys, lookup, forget, permits,
  registered, expect, arrive, leave, take_entry, matched, authenticate, claim, setup_samples,
  deliver_of, sent, deliver, drop_receiver, drop_reader, drop_writer, io_permit, drop_permit,
  accept,
}
use sandbox_driver.Channel.Budget.{
  Event, expects, arrives, claims, delivers, accepts, drops_receiver, drops_reader, drops_writer,
  lends, drops_permit, stops, happen,
}
use sandbox_driver.Channel.Permits.{lookup-member, member-forget}
use sandbox_driver.Channel.Claim.{claim-Admits, Admits}

-- What a step may do to the pending ids: drop some, and take the next one.
abbrev Grows : ChannelListener → ChannelListener → Type 0
Grows l m =
    (l.next_channel ≤ m.next_channel)
    × (m.next_channel ≤ l.next_channel + 1)
    × ((x : ℕ)
        → member x (keys m.pending) ≡ true
        → (member x (keys l.pending) ≡ true) ⊎ ((l.next_channel ≤ x) × (x < m.next_channel)))

kept : (l m : ChannelListener) → m.next_channel ≡ l.next_channel → m.pending ≡ l.pending → Grows l m
kept l m n p = (omega arith, omega arith, λ x k. inl (ap (λ q. member x (keys q)) (sym p) ∙ k))

shrunk :
    (l m : ChannelListener) (id : ℕ)
    → m.next_channel ≡ l.next_channel
    → m.pending ≡ forget id l.pending
    → Grows l m
shrunk l m id n p = (
  omega arith,
  omega arith,
  λ x k.
      let w = ap (λ q. member x (keys q)) (sym p) ∙ k in
      inl (ground (arith, member-forget x id l.pending)),
)

registered-Grows :
    (r : Result {0} Unit) (l : ChannelListener) (now : ℕ) (token : List ℕ)
    → l.next_channel + 1 < 2 ^ 64
    → Grows l (registered r l now token).1
registered-Grows (err e) l now token h = kept l l refl refl
registered-Grows (ok u) l now token h =
    let e : (l.next_channel + 1) % 2 ^ 64 ≡ l.next_channel + 1 = omega arith in
    (
      omega arith,
      omega arith,
      λ x k. elim (Bool-cases (x == l.next_channel)) [
        | inl q ↦ (let w = (==_iff x l.next_channel).0 q in inr (omega arith, omega arith))
        | inr q ↦ inl (ground (arith, member-forget x l.next_channel l.pending))
      ],
    )

sent-kept :
    (l : ChannelListener) (id elapsed : ℕ)
    → ((sent l id elapsed).1.next_channel ≡ l.next_channel)
      × ((sent l id elapsed).1.pending ≡ l.pending)
sent-kept l id elapsed = elim (Bool-cases (member id l.receivers)) [
  | inl m ↦ elim (Bool-cases (length l.setup_us == setup_samples)) [
    | inl e ↦ rw (m, e) (refl, refl)
    | inr e ↦ rw (m, e) (refl, refl)
  ]
  | inr m ↦ rw m (refl, refl)
]

delivered-kept :
    (l : ChannelListener) (id : ℕ) (acknowledged : Result {0} Unit) (now : ℕ) (o : Option Pending)
    → ((deliver_of o l id acknowledged now).1.next_channel ≡ l.next_channel)
      × ((deliver_of o l id acknowledged now).1.pending ≡ l.pending)
delivered-kept l id acknowledged now none = (refl, refl)
delivered-kept l id (err e) now (some p) = (refl, refl)
delivered-kept l id (ok u) now (some p) =
    sent-kept (leave (record l { claimed = forget id l.claimed })) id
      (min ((now - p.started) / 1000) (2 ^ 64 - 1))

accept-shrunk :
    (l : ChannelListener) (id : ℕ) (timed_out : Bool)
    → ((accept l id timed_out).1.next_channel ≡ l.next_channel)
      × ((accept l id timed_out).1.pending ≡ forget id l.pending)
unfolding accept
accept-shrunk l id timed_out = elim (Bool-cases (member id l.mailbox)) [
  | inl m ↦ rw m (refl, refl)
  | inr m ↦ elim (Bool-cases timed_out) [
    | inl t ↦ rw (m, t) (refl, refl)
    | inr t ↦ rw (m, t) (refl, refl)
  ]
]

io_permit-kept :
    (l : ChannelListener) (id : ℕ)
    → ((io_permit l id).next_channel ≡ l.next_channel) × ((io_permit l id).pending ≡ l.pending)
io_permit-kept l id = elim (Bool-cases (member id l.receivers)) [
  | inl m ↦ rw m (refl, refl)
  | inr m ↦ rw m (refl, refl)
]

arrive-kept :
    (l : ChannelListener)
    → ((arrive l).1.next_channel ≡ l.next_channel) × ((arrive l).1.pending ≡ l.pending)
unfolding arrive
arrive-kept l = elim (Bool-cases (ltb l.handshakes l.limits.unauthenticated_handshakes)) [
  | inl e ↦ rw e (refl, refl)
  | inr e ↦ rw e (refl, refl)
]

module _ (json : Json) (peer : TrustedPeer) where
  taken-Grows :
      (l : ChannelListener) (frame : OpenFrame) (r : Result Pending)
      → Grows l (take_entry json l frame r).1
  taken-Grows l frame (err e) = kept l (leave l) refl refl
  taken-Grows l frame (ok p) =
      shrunk l (take_entry json l frame (ok p)).1 frame.channel_id refl refl

  claim-Grows : (l : ChannelListener) (c : Connection) → Grows l (claim json peer l c).1
  unfolding claim
  claim-Grows l c = elim (Result-cases (authenticate json peer c)) [
    | inl (frame, h) ↦
        rw h (taken-Grows l frame (matched (lookup frame.channel_id l.pending) frame.token))
    | inr (e, h) ↦ rw h (kept l (leave l) refl refl)
  ]

  happen-Grows :
      (e : Event) (l : ChannelListener)
      → l.next_channel + 1 < 2 ^ 64
      → Grows l (happen json peer e l)
  unfolding happen expect deliver
  happen-Grows (expects now token) l h = registered-Grows (permits l) l now token h
  happen-Grows arrives l h = let (n, p) = arrive-kept l in kept l (arrive l).1 n p
  happen-Grows (claims c) l h = claim-Grows l c
  happen-Grows (delivers id acknowledged now) l h =
      let (n, p) = delivered-kept l id acknowledged now (lookup id l.claimed) in
      kept l (deliver l id acknowledged now).1 n p
  happen-Grows (accepts id timed_out) l h =
      let (n, p) = accept-shrunk l id timed_out in shrunk l (accept l id timed_out).1 id n p
  happen-Grows (drops_receiver id) l h = shrunk l (drop_receiver l id) id refl refl
  happen-Grows (drops_reader id) l h = kept l (drop_reader l id) refl refl
  happen-Grows (drops_writer id) l h = kept l (drop_writer l id) refl refl
  happen-Grows (lends id) l h = let (n, p) = io_permit-kept l id in kept l (io_permit l id) n p
  happen-Grows (drops_permit id) l h = kept l (drop_permit l id) refl refl
  happen-Grows stops l h = (omega arith, omega arith, λ x k. ground arith)

  -- The channel that a step admits, if any.
  abbrev pub admitted : Result OpenFrame → List ℕ → List ℕ
  admitted (ok frame) rest = frame.channel_id ∷ rest
  admitted (err e) rest = rest

  abbrev pub admitted_by : Event → ChannelListener → List ℕ → List ℕ
  admitted_by (claims c) l rest = admitted (claim json peer l c).0 rest
  admitted_by _ l rest = rest

  -- The channels that a run admits, in order.
  abbrev pub admissions : List Event → ChannelListener → List ℕ
  admissions [] l = []
  admissions (e ∷ es) l = admitted_by e l (admissions es (happen json peer e l))

  abbrev pub Fresh : ChannelListener → Type 0
  Fresh l = (x : ℕ) → member x (keys l.pending) ≡ true → x < l.next_channel

  abbrev pub NoRepeats : List ℕ → Type 0
  NoRepeats [] = Unit
  NoRepeats (x ∷ xs) = (member x xs ≡ false) × NoRepeats xs

  happen-Fresh :
      (e : Event) (l : ChannelListener)
      → l.next_channel + 1 < 2 ^ 64
      → Fresh l
      → Fresh (happen json peer e l)
  happen-Fresh e l h f x k =
      let (a, b, g) = happen-Grows e l h in
      elim (g x k) [ inl m ↦ (let i = f x m in omega arith) | inr (i, j) ↦ j ]

  -- What a run admits was pending, or was not yet registered.
  abbrev Source : ChannelListener → List ℕ → Type 0
  Source l xs =
      (x : ℕ) → member x xs ≡ true → (member x (keys l.pending) ≡ true) ⊎ (l.next_channel ≤ x)

  widen : (l m : ChannelListener) (rest : List ℕ) → Grows l m → Source m rest → Source l rest
  widen l m rest (a, b, g) s x k = elim (s x k) [
    | inl w ↦ elim (g x w) [ inl v ↦ inl v | inr (i, j) ↦ inr i ]
    | inr w ↦ inr (omega arith)
  ]

  claimed-Source :
      (l : ChannelListener) (c : Connection) (r : Result OpenFrame × ChannelListener)
      (rest : List ℕ)
      → Admits json peer l c r
      → Grows l r.1
      → Source r.1 rest
      → Source l (admitted r.0 rest)
  claimed-Source l c (err e, m) rest a g s x k = widen l m rest g s x k
  claimed-Source l c (ok frame, m) rest (p, o, e, t, q, n) g s x k =
      elim (Bool-cases (x == frame.channel_id)) [
        | inl w ↦ inl (
            subst (λ y. member y (keys l.pending) ≡ true) (sym ((==_iff x frame.channel_id).0 w))
              (lookup-member frame.channel_id l.pending p e))
        | inr w ↦ widen l m rest g s x (rw w at k)
      ]

  claimed-NoRepeats :
      (l : ChannelListener) (c : Connection) (r : Result OpenFrame × ChannelListener)
      (rest : List ℕ)
      → Admits json peer l c r
      → Grows l r.1
      → Fresh l
      → Source r.1 rest
      → NoRepeats rest
      → NoRepeats (admitted r.0 rest)
  claimed-NoRepeats l c (err e, m) rest a g f s n = n
  claimed-NoRepeats l c (ok frame, m) rest (p, o, e, t, q, none_left) (a, b, g) f s n = (
    elim (Bool-cases (member frame.channel_id rest)) [
      | inr w ↦ w
      | inl w ↦ elim (s frame.channel_id w) [
        | inl v ↦ absurd (
            let z = ap (λ y. member frame.channel_id (keys y)) (sym q) ∙ v in
            ground (arith, member-forget frame.channel_id frame.channel_id l.pending))
        | inr v ↦ absurd (
            let i = f frame.channel_id (lookup-member frame.channel_id l.pending p e) in
            omega arith)
      ]
    ],
    n,
  )

  step-Source :
      (e : Event) (l : ChannelListener) (rest : List ℕ)
      → Grows l (happen json peer e l)
      → Source (happen json peer e l) rest
      → Source l (admitted_by e l rest)
  unfolding happen
  step-Source (claims c) l rest g s =
      claimed-Source l c (claim json peer l c) rest (claim-Admits json peer l c) g s
  step-Source e l rest g s = widen l (happen json peer e l) rest g s

  admissions-Source :
      (es : List Event) (l : ChannelListener)
      → l.next_channel + length es < 2 ^ 64
      → Source l (admissions es l)
  admissions-Source [] l h = λ x k. ground arith
  admissions-Source (e ∷ es) l h =
      let g = happen-Grows e l (omega arith) in
      step-Source e l (admissions es (happen json peer e l)) g
        (admissions-Source es (happen json peer e l) (let (_, n, _) = g in omega arith))

  step-NoRepeats :
      (e : Event) (l : ChannelListener) (rest : List ℕ)
      → Grows l (happen json peer e l)
      → Fresh l
      → Source (happen json peer e l) rest
      → NoRepeats rest
      → NoRepeats (admitted_by e l rest)
  unfolding happen
  step-NoRepeats (claims c) l rest g f s n =
      claimed-NoRepeats l c (claim json peer l c) rest (claim-Admits json peer l c) g f s n
  step-NoRepeats _ l rest g f s n = n

  -- Whatever happens, no channel is admitted twice: a token opens its channel once. The listener's
  -- pending ids are below its next id, as those of a new one are, and the ids have not run out.
  pub admissions-NoRepeats :
      (es : List Event) (l : ChannelListener)
      → l.next_channel + length es < 2 ^ 64
      → Fresh l
      → NoRepeats (admissions es l)
  admissions-NoRepeats [] l h f = tt
  admissions-NoRepeats (e ∷ es) l h f =
      let m = happen json peer e l in
      let g = happen-Grows e l (omega arith) in
      let h' : m.next_channel + length es < 2 ^ 64 = (let (_, n, _) = g in omega arith) in
      step-NoRepeats e l (admissions es m) g f (admissions-Source es m h')
        (admissions-NoRepeats es m h' (happen-Fresh e l (omega arith) f))
