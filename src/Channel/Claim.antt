-- ===== src/Channel/Claim.antt =====
-- Which connection is admitted (channel.rs).
use sandbox_driver.Base.{
  ℕ, ◌≡◌, refl, ap, ◌∙◌, inl, inr, true, Option, none, some, List, [], ◌∷◌, ==_iff, Bool-cases,
  Option-cases, arith,
}
use sandbox_driver.Error.{Result, ok, err, ok_injective, Result-cases}
use sandbox_driver.Frame.{FrameKind, open_frame}
use sandbox_driver.Channel.{
  ChannelListener, Pending, OpenFrame, Connection, Json, TrustedPeer, lookup, forget, leave,
  matched, bytes_equal, is_allowed, open_payload, authenticate, take_entry, claim,
}

bytes_equal→≡ : (s t : List ℕ) → bytes_equal s t ≡ true → s ≡ t
bytes_equal→≡ [] [] h = refl
bytes_equal→≡ (a ∷ s) (b ∷ t) h =
    let e = (==_iff a b).0 (ground arith) in let i = bytes_equal→≡ s t (ground arith) in cc
bytes_equal→≡ [] (b ∷ t) h = ground arith
bytes_equal→≡ (a ∷ s) [] h = ground arith

lookup-forget : (id : ℕ) (entries : List (ℕ × Pending)) → lookup id (forget id entries) ≡ none
lookup-forget id [] = refl
lookup-forget id ((key, p) ∷ entries) = ground (arith, lookup-forget id entries)

-- A connection of an allowed peer whose first frame is an open frame.
abbrev pub Opens : Json → TrustedPeer → Connection → OpenFrame → Type 0
Opens json peer c frame =
    (who : Option ℕ × ℕ) × (payload : List ℕ) × (c.credentials ≡ ok who)
    × (is_allowed peer who ≡ true)
    × (c.first ≡ some (ok (some (open_frame, payload))))
    × (json.parse_open payload ≡ some frame)

open_payload-of :
    (first : Option (Result (Option (FrameKind × List ℕ)))) (payload : List ℕ)
    → open_payload first ≡ ok payload
    → first ≡ some (ok (some (open_frame, payload)))
open_payload-of none payload h = ground arith
open_payload-of (some (err e)) payload h = ground arith
open_payload-of (some (ok none)) payload h = ground arith
open_payload-of (some (ok (some (open_frame, p)))) payload h =
    ap (λ q. some (ok (some (open_frame, q)))) (ok_injective h)
open_payload-of (some (ok (some (_, p)))) payload h = ground arith

module _ (json : Json) (peer : TrustedPeer) where
  authenticate-Opens :
      (c : Connection) (frame : OpenFrame)
      → authenticate json peer c ≡ ok frame
      → Opens json peer c frame
  unfolding authenticate
  authenticate-Opens c frame h = elim (Result-cases c.credentials) [
    | inr (e, n) ↦ absurd (ground arith)
    | inl (who, n) ↦ elim (Bool-cases (is_allowed peer who)) [
      | inr a ↦ absurd (ground arith)
      | inl a ↦ elim (Result-cases (open_payload c.first)) [
        | inr (e, p) ↦ absurd (ground arith)
        | inl (payload, p) ↦ elim (Option-cases (json.parse_open payload)) [
          | inl o ↦ absurd (ground arith)
          | inr (f, o) ↦ (
            who,
            payload,
            n,
            a,
            open_payload-of c.first payload p,
            o ∙ ap some (ok_injective (rw (n, a, p, o) at h)),
          )
        ]
      ]
    ]
  ]

  -- An admission takes the entry with the frame's id and token, of an allowed peer; a refusal
  -- leaves the registry as it was.
  abbrev pub Admits : ChannelListener → Connection → Result OpenFrame × ChannelListener → Type 0
  Admits l c (err e, m) = m ≡ leave l
  Admits l c (ok frame, m) =
      (p : Pending) × Opens json peer c frame
      × (lookup frame.channel_id l.pending ≡ some p)
      × (p.token ≡ frame.token)
      × (m.pending ≡ forget frame.channel_id l.pending)
      × (lookup frame.channel_id m.pending ≡ none)

  matched-Admits :
      (l : ChannelListener) (c : Connection) (frame : OpenFrame) (o : Option Pending)
      → lookup frame.channel_id l.pending ≡ o
      → Opens json peer c frame
      → Admits l c (take_entry json l frame (matched o frame.token))
  matched-Admits l c frame none e h = refl
  matched-Admits l c frame (some p) e h = elim (Bool-cases (bytes_equal p.token frame.token)) [
    | inl b ↦ rw b (
      p,
      h,
      e,
      bytes_equal→≡ p.token frame.token b,
      refl,
      lookup-forget frame.channel_id l.pending,
    )
    | inr b ↦ rw b refl
  ]

  -- A connection is admitted only from an allowed peer, with an open frame whose token is that of
  -- the pending entry of its channel, and the entry is gone then; a connection that is refused
  -- leaves every entry, so it cannot take a channel from the plugin that was promised it.
  pub claim-Admits : (l : ChannelListener) (c : Connection) → Admits l c (claim json peer l c)
  unfolding claim
  claim-Admits l c = elim (Result-cases (authenticate json peer c)) [
    | inr (e, h) ↦ rw h refl
    | inl (frame, h) ↦ rw h (
        matched-Admits l c frame (lookup frame.channel_id l.pending) refl
          (authenticate-Opens c frame h))
  ]
