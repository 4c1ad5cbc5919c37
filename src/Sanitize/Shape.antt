-- ===== src/Sanitize/Shape.antt =====
-- What a step of the sanitizer can return (crates/sandbox-driver/src/sanitize.rs).
use sandbox_driver.Base.{
  ℕ, ◌-◌, ◌≤◌, ◌<◌, ◌≡◌, within, ◌≢◌, refl, ◌⊎◌, true, false, List, [], ◌∷◌, ◌++◌, arith,
  if◌then◌else◌,
}
use sandbox_driver.Sanitize.Clean.{IsClean}
use sandbox_driver.Sanitize.Kept.{pend}
use sandbox_driver.Sanitize.{
  OutputSanitization, raw, strip_ansi, strip_all, OutputSanitizer, process_c1, ground_byte,
  ground_text, process_ground,
}

-- `utf8_remaining` after a byte that was returned.
abbrev pub new_rem : ℕ → ℕ → ℕ
new_rem r x =
    if within 0x80 0xbf x
    then r - 1
    else if within 0xc3 0xdf x
    then 1
    else if within 0xe0 0xef x
    then 2
    else if within 0xf0 0xf4 x
    then 3
    else 0

abbrev pub IsSpecial : ℕ → Type 0
IsSpecial x =
    (x ≡ 0x90) ⊎ (x ≡ 0x98) ⊎ (x ≡ 0x9b) ⊎ (x ≡ 0x9c) ⊎ (x ≡ 0x9d) ⊎ (x ≡ 0x9e) ⊎ (x ≡ 0x9f)

-- The bytes, other than a held 0xc2, that are returned with `r` continuation bytes to come.
abbrev pub Emits : OutputSanitization → ℕ → ℕ → Type 0
Emits raw r x = ⊥
Emits strip_ansi r x = (x ≢ 0x1b) × (x ≢ 0xc2) × ((x < 0x80) ⊎ (0x9f < x) ⊎ (0 < r) ⊎ ¬ IsSpecial x)
Emits strip_all r x = (x ≢ 0xc2) × IsClean strip_all x × ((x < 0x80) ⊎ (0x9f < x) ⊎ (0 < r))

pub absorb_byte :
    (p : OutputSanitization) (t : OutputSanitizer) (x : ℕ)
    → t.policy ≡ p
    → t.utf8_remaining ≡ 0
    → Emits p 0 x
    → ground_byte t x ≡ (record t { utf8_remaining = new_rem 0 x }, x ∷ [])
unfolding ground_byte
absorb_byte raw t x e r m = absurd m
absorb_byte strip_ansi t x e r m = ground arith
absorb_byte strip_all t x e r m = ground arith

pub absorb_text :
    (p : OutputSanitization) (t : OutputSanitizer) (x : ℕ)
    → t.policy ≡ p
    → Emits p t.utf8_remaining x
    → ground_text t x ≡ (record t { utf8_remaining = new_rem t.utf8_remaining x }, x ∷ [])
unfolding ground_text
absorb_text raw t x e m = absurd m
absorb_text p t x e m =
    ground (arith, absorb_byte p t x e, absorb_byte p (record t { utf8_remaining = 0 }) x e refl)

pub absorb :
    (p : OutputSanitization) (t : OutputSanitizer) (x : ℕ)
    → t.policy ≡ p
    → (t.pending_c2 ≡ true → t.utf8_remaining ≡ 0)
    → Emits p t.utf8_remaining x
    → process_ground t x ≡ (
      record t { pending_c2 = false; utf8_remaining = new_rem t.utf8_remaining x },
      pend t ++ x ∷ [],
    )
unfolding process_ground process_c1
absorb raw t x e h m = absurd m
absorb strip_ansi t x e h m = ground (
  arith,
  absorb_text strip_ansi t x e,
  absorb_text strip_ansi (record t { pending_c2 = false }) x e,
)
absorb strip_all t x e h m = ground (
  arith,
  absorb_text strip_all t x e,
  absorb_text strip_all (record t { pending_c2 = false }) x e,
)

-- What a step of the first sanitizer can return: nothing, and then no UTF-8 sequence is open, or
-- its byte.
abbrev pub Shape : OutputSanitization → ℕ → ℕ → OutputSanitizer × List ℕ → Type 0
Shape p r b (s', out) =
    ((out ≡ []) × (s'.utf8_remaining ≡ 0))
    ⊎ ((out ≡ b ∷ []) × Emits p r b × (s'.utf8_remaining ≡ new_rem r b) × (s'.pending_c2 ≡ false))

pub Shape-byte :
    (p : OutputSanitization) (s : OutputSanitizer) (b : ℕ)
    → p ≢ raw
    → s.policy ≡ p
    → s.pending_c2 ≡ false
    → s.utf8_remaining ≡ 0
    → Shape p 0 b (ground_byte s b)
unfolding ground_byte
Shape-byte raw s b n e h r = absurd (n refl)
Shape-byte strip_ansi s b n e h r = ground arith
Shape-byte strip_all s b n e h r = ground arith

pub Shape-text :
    (p : OutputSanitization) (s : OutputSanitizer) (b : ℕ)
    → p ≢ raw
    → s.policy ≡ p
    → s.pending_c2 ≡ false
    → Shape p s.utf8_remaining b (ground_text s b)
unfolding ground_text
Shape-text raw s b n e h = absurd (n refl)
Shape-text strip_ansi s b n e h = ground (
  arith,
  Shape-byte strip_ansi s b n e h,
  Shape-byte strip_ansi (record s { utf8_remaining = 0 }) b n e h refl,
)
Shape-text strip_all s b n e h = ground (
  arith,
  Shape-byte strip_all s b n e h,
  Shape-byte strip_all (record s { utf8_remaining = 0 }) b n e h refl,
)

pub Emits-mono : (p : OutputSanitization) (r k x : ℕ) → r ≤ k → Emits p r x → Emits p k x
Emits-mono raw r k x h m = m
Emits-mono strip_ansi r k x h m = ground arith
Emits-mono strip_all r k x h m = ground arith

pub new_rem_mono : (r k x : ℕ) → r ≤ k → new_rem r x ≤ new_rem k x
new_rem_mono r k x h = ground arith
