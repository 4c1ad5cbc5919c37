-- ===== src/Channel/Permits.antt =====
-- The permits in use, and what changes them (channel.rs, limits.rs).
use sandbox_driver.Base.{
  ℕ, ◌+◌, ◌≤◌, ◌≡◌, refl, sym, ap, ◌∙◌, inl, inr, Bool, true, not, ◌&&◌, ◌||◌, some, List, [], ◌∷◌,
  length, ◌==◌, member, member-append, distinct-Within, Bool-cases, arith,
}
use sandbox_driver.Channel.{
  ChannelListener, Pending, keys, lookup, forget, holders, io_in_use, opens_in_use,
}

-- No budget is overdrawn.
abbrev pub IsBudgeted : ChannelListener → Type 0
IsBudgeted l =
    (io_in_use l ≤ l.limits.active_io)
    × (opens_in_use l ≤ l.limits.pending_opens)
    × (l.handshakes ≤ l.limits.unauthenticated_handshakes)

pub length-forget :
    (id : ℕ) (entries : List (ℕ × Pending)) → length (forget id entries) ≤ length entries
length-forget id [] = omega arith
length-forget id ((key, p) ∷ entries) = ground (arith, length-forget id entries)

pub forget-found :
    (id : ℕ) (entries : List (ℕ × Pending)) (p : Pending)
    → lookup id entries ≡ some p
    → length (forget id entries) + 1 ≤ length entries
forget-found id [] p h = ground arith
forget-found id ((key, q) ∷ entries) p h = elim (Bool-cases (id == key)) [
  | inl e ↦ rw e (ground (arith, length-forget id entries))
  | inr e ↦ rw e (let i = forget-found id entries p (rw e at h) in ground arith)
]

pub member-forget :
    (x id : ℕ) (entries : List (ℕ × Pending))
    → member x (keys (forget id entries)) ≡ (not (x == id) && member x (keys entries))
member-forget x id [] = ground arith
member-forget x id ((key, p) ∷ entries) = ground (arith, member-forget x id entries)

pub lookup-member :
    (id : ℕ) (entries : List (ℕ × Pending)) (p : Pending)
    → lookup id entries ≡ some p
    → member id (keys entries) ≡ true
lookup-member id [] p h = ground arith
lookup-member id ((key, q) ∷ entries) p h = ground (arith, lookup-member id entries p)

-- Seven lists, each of which the holders of an I/O permit may stand in.
abbrev pub anywhere : ℕ → ChannelListener → Bool
anywhere x l =
    member x (keys l.pending)
    || (member x (keys l.claimed)
        || (member x l.receivers
            || (member x l.mailbox
                || (member x l.readers || (member x l.writers || member x l.lent)))))

member-holders : (x : ℕ) (l : ChannelListener) → member x (holders l) ≡ anywhere x l
member-holders x l =
    rw
      (
        member-append x (keys l.pending),
        member-append x (keys l.claimed),
        member-append x l.receivers,
        member-append x l.mailbox,
        member-append x l.readers,
        member-append x l.writers l.lent,
      )
      refl

-- Fewer holders, fewer permits.
pub fewer :
    (l m : ChannelListener)
    → ((x : ℕ) → anywhere x l ≡ true → anywhere x m ≡ true)
    → io_in_use l ≤ io_in_use m
fewer l m h =
    distinct-Within (holders l) (holders m)
      (λ x k. member-holders x m ∙ h x (sym (member-holders x l) ∙ k))

pub one_more :
    (l m : ChannelListener) (id : ℕ)
    → ((x : ℕ) → anywhere x l ≡ true → (x == id || anywhere x m) ≡ true)
    → io_in_use l ≤ io_in_use m + 1
one_more l m id h =
    let i =
      distinct-Within (holders l) (id ∷ holders m)
        (λ x k. ap (λ b. x == id || b) (member-holders x m) ∙ h x (sym (member-holders x l) ∙ k)) in
    ground arith
