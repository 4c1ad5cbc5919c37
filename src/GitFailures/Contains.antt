-- ===== src/GitFailures/Contains.antt =====
-- What `contains` finds, and that case does not matter (error.rs).
use sandbox_driver.Base.{
  ℕ, ◌≡◌, refl, ap, ◌∙◌, ◌↔◌, inl, inr, true, List, [], ◌∷◌, ◌++◌, ==_iff, ==_refl, Bool-cases,
  arith,
}
use sandbox_driver.GitFailures.{lower_byte, to_lower, starts_with, contains, from_message}

starts_with_sound :
    (text needle : List ℕ)
    → starts_with text needle ≡ true
    → (rest : List ℕ) × (text ≡ needle ++ rest)
starts_with_sound text [] h = (text, refl)
starts_with_sound [] (c ∷ needle) h = absurd (ground arith)
starts_with_sound (b ∷ text) (c ∷ needle) h =
    let (rest, e) = starts_with_sound text needle (ground arith) in
    let q = (==_iff b c).0 (ground arith) in (rest, cc)

starts_with-append : (needle rest : List ℕ) → starts_with (needle ++ rest) needle ≡ true
starts_with-append [] rest = refl
starts_with-append (c ∷ needle) rest = rw (==_refl c) (starts_with-append needle rest)

-- `text` is `before`, then `needle`, then `after`.
pub record Occurs (needle text : List ℕ) : Type 0 where
  pub before : List ℕ
  pub after : List ℕ
  pub parts : text ≡ before ++ (needle ++ after)

contains_sound : (text needle : List ℕ) → contains text needle ≡ true → Occurs needle text
unfolding contains
contains_sound [] needle h =
    let (rest, e) = starts_with_sound [] needle h in record { before = []; after = rest; parts = e }
contains_sound (b ∷ text) needle h = elim (Bool-cases (starts_with (b ∷ text) needle)) [
  | inl s ↦
      (let (rest, e) = starts_with_sound (b ∷ text) needle s in
        record { before = []; after = rest; parts = e })
  | inr s ↦
      (let o = contains_sound text needle (rw s at h) in
        record { before = b ∷ o.before; after = o.after; parts = ap (◌∷◌ b) o.parts })
]

contains_complete :
    (before needle after : List ℕ) → contains (before ++ (needle ++ after)) needle ≡ true
unfolding contains
contains_complete (b ∷ before) needle after = ground (arith, contains_complete before needle after)
contains_complete [] [] [] = refl
contains_complete [] [] (b ∷ after) = refl
contains_complete [] (c ∷ needle) after = rw (starts_with-append (c ∷ needle) after) refl

-- `contains` finds a fragment exactly where the text is something, the fragment, and something.
pub contains_iff : (text needle : List ℕ) → (contains text needle ≡ true) ↔ Occurs needle text
contains_iff text needle = (
  contains_sound text needle,
  λ o. ap (λ t. contains t needle) o.parts ∙ contains_complete o.before needle o.after,
)

lower_byte_idem : (b : ℕ) → lower_byte (lower_byte b) ≡ lower_byte b
lower_byte_idem b = ground arith

to_lower_idem : (text : List ℕ) → to_lower (to_lower text) ≡ to_lower text
to_lower_idem [] = refl
to_lower_idem (b ∷ text) = rw (lower_byte_idem b, to_lower_idem text) refl

-- The class of a message does not depend on the case of its ASCII letters.
pub from_message-lower : (s t : List ℕ) → to_lower s ≡ to_lower t → from_message s ≡ from_message t
unfolding from_message
from_message-lower s t e = rw e refl
