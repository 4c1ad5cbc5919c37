-- ===== src/Fence/Drains.antt =====
-- What a stop leaves (sentinel.rs).
use sandbox_driver.Base.{
  ℕ, ◌≡◌, ◌≢◌, refl, ap, ◌∙◌, inl, inr, false, Option, none, some, List, [], ◌∷◌, ◌++◌, map, String,
  Bool-cases, All, arith,
}
use sandbox_driver.Error.{Result, ok, err, ◌>>=◌, Result-cases}
use sandbox_driver.Fence.{
  held, reaping, reaped, PinnedGroup, is_pinned, take_for_reap, restore, mark_reaped, reap_all,
}
use sandbox_driver.Fence.Groups.{
  Generation, GroupState, Answers, kill_and_reap_owned, drain_owned, owned_ids, forget_if, and_gone,
  drain_saved, drain, stop, spawn, stopped_error,
}

-- A pin that no stop is in the middle of.
abbrev pub IsSettled : List PinnedGroup → Type 0
IsSettled groups = All (λ (g : PinnedGroup). g.pin ≢ reaping) groups

abbrev pub groups_of : Option Generation → List PinnedGroup
groups_of none = []
groups_of (some g) = g.groups

abbrev ids : List PinnedGroup → List ℕ
ids groups = map (λ (x : PinnedGroup). x.pgid) groups

-- The same ids, settled where they were settled.
abbrev Keeps : List PinnedGroup → List PinnedGroup → Type 0
Keeps before after = (ids after ≡ ids before) × (IsSettled before → IsSettled after)

held_settled : held ≢ reaping
held_settled e = ground arith

reaped_settled : reaped ≢ reaping
reaped_settled e = ground arith

Keeps-more :
    (g h : PinnedGroup) (before after : List PinnedGroup)
    → h.pgid ≡ g.pgid
    → (g.pin ≢ reaping → h.pin ≢ reaping)
    → Keeps before after
    → Keeps (g ∷ before) (h ∷ after)
Keeps-more g h before after e p (q, k) =
    (ap (λ x. x ∷ ids after) e ∙ ap (◌∷◌ g.pgid) q, λ (a, b). (p a, k b))

reap_all-Keeps :
    (wait : ℕ → Result {0} Unit) (groups : List PinnedGroup) → Keeps groups (reap_all wait groups).1
unfolding reap_all take_for_reap restore mark_reaped
reap_all-Keeps wait [] = (refl, λ h. h)
reap_all-Keeps wait (g ∷ groups) = elim (Bool-cases (is_pinned g)) [
  | inl e ↦ elim (Result-cases (wait g.pgid)) [
    | inl (u, w) ↦
        rw (e, w)
          (Keeps-more g (mark_reaped g) groups (reap_all wait groups).1 refl (λ h. reaped_settled)
            (reap_all-Keeps wait groups))
    | inr (x, w) ↦
        rw (e, w) (Keeps-more g (restore g) groups groups refl (λ h. held_settled) (refl, λ h. h))
  ]
  | inr e ↦
      rw e
        (Keeps-more g g groups (reap_all wait groups).1 refl (λ h. h) (reap_all-Keeps wait groups))
]

kill_and_reap_owned-Keeps :
    (answers : Answers) (groups : List PinnedGroup)
    → Keeps groups (kill_and_reap_owned answers groups).1
unfolding kill_and_reap_owned
kill_and_reap_owned-Keeps answers groups = elim (Result-cases answers.killed) [
  | inl (u, w) ↦ rw w (reap_all-Keeps answers.wait groups)
  | inr (e, w) ↦ rw w (refl, λ h. h)
]

-- Where the drain did not succeed, the generation is kept; where it did, it is forgotten.
abbrev pub Drained : Option Generation → Result {0} Unit × Option Generation → Type 0
Drained before (ok u, after) = after ≡ none
Drained before (err e, after) = Keeps (groups_of before) (groups_of after)

abbrev Held : Option Generation → Result {0} Unit × Option Generation → Type 0
Held before outcome = Keeps (groups_of before) (groups_of outcome.1)

drain_owned-Held :
    (answers : Answers) (generation : Option Generation)
    → Held generation (drain_owned answers generation)
drain_owned-Held answers none = (refl, λ h. h)
drain_owned-Held answers (some g) = kill_and_reap_owned-Keeps answers g.groups

forget_if-Drained :
    (r : Result {0} Unit) (before after : Option Generation)
    → Keeps (groups_of before) (groups_of after)
    → Drained before (forget_if r after)
forget_if-Drained (ok u) before after h = refl
forget_if-Drained (err e) before after h = h

and_gone-Drained :
    (answers : Answers) (paths : List String) (pgids : List ℕ) (before : Option Generation)
    (outcome : Result {0} Unit × Option Generation)
    → Held before outcome
    → Drained before (and_gone answers paths pgids outcome)
and_gone-Drained answers paths pgids before (err e, after) h = h
and_gone-Drained answers paths pgids before (ok u, after) h =
    forget_if-Drained (answers.await_gone pgids >>= (λ gone. answers.remove_dirs paths)) before
      after h

drain_saved-Drained :
    (answers : Answers) (saved : Result (List String × List ℕ)) (generation : Option Generation)
    → Drained generation (drain_saved answers saved generation)
drain_saved-Drained answers (err e) generation = (refl, λ h. h)
drain_saved-Drained answers (ok (paths, pgids)) generation =
    and_gone-Drained answers paths (pgids ++ owned_ids generation) generation
      (drain_owned answers generation) (drain_owned-Held answers generation)

-- Whatever the system answers, a stop leaves a sandbox that takes no work. Where it succeeds, the
-- generation is forgotten; where it fails, the same groups are kept, and none is left in the middle of
-- a reap if none was, so that a later stop can signal and reap them.
pub stop-Drained :
    (answers : Answers) (s : GroupState)
    → ((stop answers s).1.accepting_work ≡ false)
      × Drained s.generation ((stop answers s).0, (stop answers s).1.generation)
      × ((created : Result String) (spawned : Result ℕ)
          → spawn created spawned (stop answers s).1 ≡ (err stopped_error, (stop answers s).1))
unfolding stop drain spawn
stop-Drained answers s =
    (refl, drain_saved-Drained answers answers.fence_saved s.generation, λ created spawned. refl)
