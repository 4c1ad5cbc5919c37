-- ===== src/Sanitize/Tidy.antt =====
-- A second sanitizer behind each step of the first (crates/sandbox-driver/src/sanitize.rs).
use sandbox_driver.Base.{
  ℕ, ◌≡◌, ◌≢◌, refl, ◌⊎◌, inl, inr, true, false, List, [], arith, Bool-cases, ◌∙◌,
}
use sandbox_driver.Sanitize.{
  OutputSanitization, raw, OutputSanitizer, State, escape, process_c1, ground_byte, ground_text,
  process_ground, process_escape, process_escape_intermediate, process_csi, process_osc,
  process_osc_escape, process_osc_c2, process_control_string, process_control_string_escape,
  process_control_string_c2, process_in,
}
use sandbox_driver.Sanitize.Shape.{Shape-text}
use sandbox_driver.Sanitize.Follow.{
  Follows, Matches, Matches-held, Matches-nil, Matches-Shape, shape_held,
}

-- Outside the ground state, and while a byte is held back, no UTF-8 sequence is open.
pub record IsTidy (s : OutputSanitizer) : Type 0 where
  pub held : s.pending_c2 ≡ true → s.utf8_remaining ≡ 0
  pub outside : s.state ≢ State.ground → (s.utf8_remaining ≡ 0) × (s.pending_c2 ≡ false)

pub ground_plain :
    (s : OutputSanitizer) (b : ℕ) → s.pending_c2 ≡ false → process_ground s b ≡ ground_text s b
unfolding process_ground
ground_plain s b e = ground arith

pub Matches-ground :
    (p : OutputSanitization) (s t : OutputSanitizer) (b : ℕ)
    → p ≢ raw
    → s.policy ≡ p
    → (s.pending_c2 ≡ true → s.utf8_remaining ≡ 0)
    → Follows p s t
    → Matches p t (process_ground s b)
Matches-ground p s t b n e h f = elim (Bool-cases s.pending_c2) [
  | inl c ↦ Matches-held p s _ t _ b f (shape_held p s b n e c (h c))
  | inr c ↦ rw (ground_plain s b c) (Matches-Shape p s _ t _ b f (Shape-text p s b n e c))
]

-- A step that returns nothing and leaves the count of continuation bytes.
abbrev pub Quiet : OutputSanitizer → OutputSanitizer × List ℕ → Type 0
Quiet s (s', out) = (out ≡ []) × (s'.utf8_remaining ≡ s.utf8_remaining)

pub Quiet-escape :
    (s : OutputSanitizer) (b : ℕ)
    → Quiet s (process_escape s b)
      ⊎ (process_escape s b ≡ process_ground (record s { state = State.ground }) b)
unfolding process_escape
Quiet-escape s b = ground arith

pub Quiet-step :
    (st : State) (s : OutputSanitizer) (b : ℕ)
    → st ≢ State.ground
    → st ≢ escape
    → Quiet s (process_in st s b)
unfolding process_in process_escape_intermediate process_csi process_osc process_osc_escape
    process_osc_c2 process_control_string process_control_string_escape process_control_string_c2
Quiet-step State.ground s b n m = absurd (n refl)
Quiet-step escape s b n m = absurd (m refl)
Quiet-step _ s b n m = ground arith

pub Matches-Quiet :
    (p : OutputSanitization) (s s' t : OutputSanitizer) (out : List ℕ)
    → Follows p s t
    → s.utf8_remaining ≡ 0
    → Quiet s (s', out)
    → Matches p t (s', out)
Matches-Quiet p s s' t out f z (e, r) = rw e (Matches-nil p s s' t f (r ∙ z))

pub Matches-step :
    (st : State) (p : OutputSanitization) (s t : OutputSanitizer) (b : ℕ)
    → s.state ≡ st
    → p ≢ raw
    → s.policy ≡ p
    → IsTidy s
    → Follows p s t
    → Matches p t (process_in st s b)
unfolding process_in
Matches-step State.ground p s t b w n e h f = Matches-ground p s t b n e h.held f
Matches-step escape p s t b w n e h f = elim (Quiet-escape s b) [
  | inl q ↦ Matches-Quiet p s _ t _ f (h.outside (λ g. cc)).0 q
  | inr q ↦ rw q (
      Matches-ground p (record s { state = State.ground }) t b n e h.held
        (record { policy = f.policy; state = f.state; held = f.held; room = f.room }))
]
Matches-step other p s t b w n e h f =
    Matches-Quiet p s _ t _ f (h.outside (λ g. cc)).0 (Quiet-step other s b (λ g. cc) (λ g. cc))

pub IsTidy-byte :
    (s : OutputSanitizer) (b : ℕ)
    → s.state ≡ State.ground
    → s.pending_c2 ≡ false
    → s.utf8_remaining ≡ 0
    → IsTidy (ground_byte s b).0
unfolding ground_byte
IsTidy-byte s b g e h = ground arith

pub IsTidy-text :
    (s : OutputSanitizer) (b : ℕ)
    → s.state ≡ State.ground
    → s.pending_c2 ≡ false
    → IsTidy (ground_text s b).0
unfolding ground_text
IsTidy-text s b g e =
    ground (arith, IsTidy-byte s b g e, IsTidy-byte (record s { utf8_remaining = 0 }) b g e refl)

pub IsTidy-ground :
    (s : OutputSanitizer) (b : ℕ)
    → s.state ≡ State.ground
    → (s.pending_c2 ≡ true → s.utf8_remaining ≡ 0)
    → IsTidy (process_ground s b).0
unfolding process_ground process_c1
IsTidy-ground s b g h =
    ground (arith, IsTidy-text s b g, IsTidy-text (record s { pending_c2 = false }) b g refl)

pub IsTidy-step :
    (st : State) (s : OutputSanitizer) (b : ℕ)
    → s.state ≡ st
    → IsTidy s
    → IsTidy (process_in st s b).0
unfolding process_in
IsTidy-step State.ground s b w h = IsTidy-ground s b w h.held
IsTidy-step escape s b w h =
    unfold process_escape in
    ground
      (arith, h.outside (λ g. cc), IsTidy-ground (record s { state = State.ground }) b refl h.held)
IsTidy-step _ s b w h =
    unfold process_escape_intermediate process_csi process_osc process_osc_escape process_osc_c2
      process_control_string process_control_string_escape process_control_string_c2 in
    ground (arith, h.outside (λ g. cc))
