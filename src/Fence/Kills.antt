-- ===== src/Fence/Kills.antt =====
-- When the killing of groups ends (sentinel.rs).
use sandbox_driver.Base.{
  ℕ, zero, suc, ◌+◌, ◌≤◌, ◌<◌, ◌≡◌, ◌≢◌, ◌==◌, ==_iff, subst, refl, sym, ap, ◌∙◌, inl, inr, Bool,
  true, false, Option, some, List, [], ◌∷◌, member, Bool-cases, All, arith,
}
use sandbox_driver.Error.{Result, ok, err}
use sandbox_driver.Fence.{
  PinnedGroup, Signal, sigkill, is_pinned, signal, signal_all, live_member, observe, Rounds,
  kill_round, on_round, kill_loop, kill_owned_groups,
}

-- No pinned group is live in a round.
abbrev pub Quiet : Rounds → List PinnedGroup → ℕ → Type 0
Quiet rounds groups round =
    All (λ (g : PinnedGroup). is_pinned g ≡ true → member g.pgid (rounds.live_groups round) ≡ false)
      groups

no_false : false ≢ true
no_false e = ground arith

live_member-ok : (r : Result {0} Unit) (rest : Result Bool) → live_member r rest ≢ ok false
live_member-ok (err e) rest h = ground arith
live_member-ok (ok u) (err e) h = ground arith
live_member-ok (ok u) (ok live) h = ground arith

module _ (killpg : ℕ → Signal → Result {0} Unit) (live : List ℕ) where
  -- A round, and the same from the first group on.
  abbrev seen : List PinnedGroup → Result Bool
  seen groups = observe live (signal_all killpg groups)

  abbrev Absent : PinnedGroup → Type 0
  Absent g = is_pinned g ≡ true → member g.pgid live ≡ false

  seen-Absent : (groups : List PinnedGroup) → All Absent groups → seen groups ≡ ok false
  unfolding observe signal
  seen-Absent [] h = refl
  seen-Absent (g ∷ groups) (p, h) = elim (Bool-cases (is_pinned g)) [
    | inl e ↦ rw (e, p e) (seen-Absent groups h)
    | inr e ↦ rw e (seen-Absent groups h)
  ]

  Absent-seen : (groups : List PinnedGroup) → seen groups ≡ ok false → All Absent groups
  unfolding observe signal
  Absent-seen [] h = tt
  Absent-seen (g ∷ groups) h = elim (Bool-cases (is_pinned g)) [
    | inl e ↦ elim (Bool-cases (member g.pgid live)) [
      | inl m ↦ absurd (live_member-ok (killpg g.pgid sigkill) (seen groups) (rw (e, m) at h))
      | inr m ↦ (λ k. m, Absent-seen groups (rw (e, m) at h))
    ]
    | inr e ↦ (λ k. absurd (no_false (sym e ∙ k)), Absent-seen groups (rw e at h))
  ]

module _ (rounds : Rounds) (groups : List PinnedGroup) where
  kill_round-Quiet :
      (round : ℕ) → Quiet rounds groups round → kill_round rounds groups round ≡ ok false
  unfolding kill_round
  kill_round-Quiet round h = seen-Absent (rounds.killpg round) (rounds.live_groups round) groups h

  Quiet-kill_round :
      (round : ℕ) → kill_round rounds groups round ≡ ok false → Quiet rounds groups round
  unfolding kill_round
  Quiet-kill_round round h = Absent-seen (rounds.killpg round) (rounds.live_groups round) groups h

  -- Two quiet rounds, one after the other.
  abbrev pub Settled : ℕ → Type 0
  Settled round = Quiet rounds groups round × Quiet rounds groups (suc round)

  abbrev pub Succeeds : ℕ → Type 0
  Succeeds round = (live : Bool) × (kill_round rounds groups round ≡ ok live)

  abbrev again : ℕ → ℕ → Bool → Option (Result {0} Unit)
  again round fuel empty = kill_loop rounds groups (suc round) empty fuel

  quiet_next :
      (round fuel : ℕ) (was_empty : Bool)
      → Settled round
      → 0 < fuel
      → on_round (again round fuel) was_empty (kill_round rounds groups round) ≡ some (ok tt)
  unfolding kill_loop
  quiet_next round zero was_empty h k = absurd (omega arith)
  quiet_next round (suc fuel) true (a, b) k = rw (kill_round-Quiet round a) refl
  quiet_next round (suc fuel) false (a, b) k =
      rw (kill_round-Quiet round a, kill_round-Quiet (suc round) b) refl

  on_round-ok :
      (next : Bool → Option (Result {0} Unit)) (was_empty live : Bool)
      → ((empty : Bool) → next empty ≡ some (ok tt))
      → on_round next was_empty (ok live) ≡ some (ok tt)
  on_round-ok next true false h = refl
  on_round-ok next false false h = h true
  on_round-ok next was_empty true h = h false

  kill_loop-settles :
      (fuel round n : ℕ) (was_empty : Bool)
      → round ≤ n
      → n + 2 ≤ round + fuel
      → Settled n
      → ((j : ℕ) → round ≤ j → j < n → Succeeds j)
      → kill_loop rounds groups round was_empty fuel ≡ some (ok tt)
  unfolding kill_loop
  kill_loop-settles zero round n was_empty a b h k = absurd (omega arith)
  kill_loop-settles (suc fuel) round n was_empty a b h k = elim (Bool-cases (round == n)) [
    | inl e ↦
        let q = (==_iff round n).0 e in
        quiet_next round fuel was_empty (subst Settled (sym q) h) (omega arith)
    | inr e ↦
        let (live, s) = k round (omega arith) (ground arith) in
        ap (on_round (again round fuel) was_empty) s
        ∙ on_round-ok (again round fuel) was_empty live (λ empty.
          kill_loop-settles fuel (suc round) n empty (ground arith) (omega arith) h
            (λ j l m. k j (omega arith) m))
  ]

  -- Once two rounds in a row find no pinned group live, and no round before them failed, the killing
  -- ends without an error.
  pub kill_owned_groups-settles :
      (n : ℕ)
      → Settled n
      → ((j : ℕ) → j < n → Succeeds j)
      → kill_owned_groups rounds groups (n + 2) ≡ some (ok tt)
  unfolding kill_owned_groups
  kill_owned_groups-settles n h k =
      kill_loop-settles (n + 2) 0 n false (omega arith) (omega arith) h (λ j l m. k j m)
