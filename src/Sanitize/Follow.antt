-- ===== src/Sanitize/Follow.antt =====
-- A second sanitizer that reads what one step of the first returned
-- (crates/sandbox-driver/src/sanitize.rs).
use sandbox_driver.Base.{
  ℕ, ◌≤◌, ◌≡◌, ◌≢◌, refl, ◌⊎◌, inl, inr, true, false, List, [], ◌∷◌, ◌++◌, append_assoc, append-nil,
  arith, drop, ap, sym, ◌∙◌,
}
use sandbox_driver.Sanitize.Kept.{pend}
use sandbox_driver.Sanitize.{
  OutputSanitization, raw, strip_ansi, strip_all, OutputSanitizer, State, process_c1, ground_byte,
  ground_text, process_ground, process_in, process_all, before,
}
use sandbox_driver.Sanitize.Shape.{
  Emits, Shape, absorb, Emits-mono, new_rem, new_rem_mono, Shape-text,
}

-- `t` has read what `s` returned, and has room for every continuation byte that `s` would return.
pub record Follows (p : OutputSanitization) (s t : OutputSanitizer) : Type 0 where
  pub policy : t.policy ≡ p
  pub state : t.state ≡ State.ground
  pub held : t.pending_c2 ≡ true → (t.utf8_remaining ≡ 0) × (s.utf8_remaining ≡ 0)
  pub room : s.utf8_remaining ≤ t.utf8_remaining

-- `t` returns, in time, what a step of `s` returned.
abbrev pub Matches : OutputSanitization → OutputSanitizer → OutputSanitizer × List ℕ → Type 0
Matches p t (s', out) =
    ((process_all t out).1 ++ pend (process_all t out).0 ≡ pend t ++ out)
    × Follows p s' (process_all t out).0

pub process_one :
    (t : OutputSanitizer) (x : ℕ)
    → t.state ≡ State.ground
    → process_all t (x ∷ []) ≡ process_ground t x
unfolding process_all process_in
process_one t x e = rw (e, append-nil)

pub Matches-nil :
    (p : OutputSanitization) (s s' t : OutputSanitizer)
    → Follows p s t
    → s'.utf8_remaining ≡ 0
    → Matches p t (s', [])
unfolding process_all
Matches-nil p s s' t f e = (
  sym (append-nil (pend t)),
  record { policy = f.policy; state = f.state; held = λ h. ((f.held h).0, e); room = omega arith },
)

pub Matches-one :
    (p : OutputSanitization) (s s' t : OutputSanitizer) (b : ℕ)
    → Follows p s t
    → Emits p s.utf8_remaining b
    → s'.utf8_remaining ≡ new_rem s.utf8_remaining b
    → Matches p t (s', b ∷ [])
Matches-one p s s' t b f m e =
    rw
      (
        process_one t b f.state,
        absorb p t b f.policy (λ h. (f.held h).0)
            (Emits-mono p s.utf8_remaining t.utf8_remaining b f.room m),
      )
      (
        append-nil _,
        record {
          policy = f.policy;
          state = f.state;
          held = λ h. cc;
          room = rw e (new_rem_mono s.utf8_remaining t.utf8_remaining b f.room);
        },
      )

pub Matches-Shape :
    (p : OutputSanitization) (s s' t : OutputSanitizer) (out : List ℕ) (b : ℕ)
    → Follows p s t
    → Shape p s.utf8_remaining b (s', out)
    → Matches p t (s', out)
Matches-Shape p s s' t out b f (inl (e, z)) = rw e (Matches-nil p s s' t f z)
Matches-Shape p s s' t out b f (inr (e, m, z, _)) = rw e (Matches-one p s s' t b f m z)

pub hold :
    (t : OutputSanitizer)
    → (t.pending_c2 ≡ true → t.utf8_remaining ≡ 0)
    → process_ground t 0xc2 ≡ (record t { pending_c2 = true; utf8_remaining = 0 }, pend t)
unfolding process_ground ground_text ground_byte
hold t h = ground arith

abbrev pub HeldShape : OutputSanitization → ℕ → OutputSanitizer × List ℕ → Type 0
HeldShape p b (s', out) =
    ((out ≡ []) × (s'.utf8_remaining ≡ 0))
    ⊎ ((out ≡ 0xc2 ∷ drop 1 out) × Shape p 0 b (s', drop 1 out))

pub shape_held :
    (p : OutputSanitization) (s : OutputSanitizer) (b : ℕ)
    → p ≢ raw
    → s.policy ≡ p
    → s.pending_c2 ≡ true
    → s.utf8_remaining ≡ 0
    → HeldShape p b (process_ground s b)
unfolding process_ground process_c1
shape_held raw s b n e h r = absurd (n refl)
shape_held strip_ansi s b n e h r =
    ground (arith, Shape-text strip_ansi (record s { pending_c2 = false }) b n e refl)
shape_held strip_all s b n e h r =
    ground (arith, Shape-text strip_all (record s { pending_c2 = false }) b n e refl)

pub process_two :
    (t : OutputSanitizer) (x : ℕ) (out : List ℕ)
    → t.state ≡ State.ground
    → process_all t (x ∷ out)
      ≡ before (process_ground t x).1 (process_all (process_ground t x).0 out)
unfolding process_all process_in
process_two t x out e = rw e

pub Matches-after :
    (p : OutputSanitization) (s s' t : OutputSanitizer) (rest : List ℕ) (b : ℕ)
    → Follows p s t
    → Shape p 0 b (s', rest)
    → Matches p t (s', 0xc2 ∷ rest)
Matches-after p s s' t rest b f h =
    let t' = record t { pending_c2 = true; utf8_remaining = 0 } in
    let empty = record s { utf8_remaining = 0 } in
    let m : Matches p t' (s', rest) =
      Matches-Shape p empty s' t' rest b
        (record {
          policy = f.policy;
          state = f.state;
          held = λ _. (refl, refl);
          room = omega arith;
        })
        h in
    rw (process_two t 0xc2 rest f.state, hold t (λ e. (f.held e).0))
      (append_assoc (pend t) _ _ ∙ ap (◌++◌ (pend t)) m.0, m.1)

pub Matches-held :
    (p : OutputSanitization) (s s' t : OutputSanitizer) (out : List ℕ) (b : ℕ)
    → Follows p s t
    → HeldShape p b (s', out)
    → Matches p t (s', out)
Matches-held p s s' t out b f (inl (e, r)) = rw e (Matches-nil p s s' t f r)
Matches-held p s s' t out b f (inr (e, h)) = rw e (Matches-after p s s' t (drop 1 out) b f h)
