-- ===== src/GitBatch/Fields.antt =====
-- Cutting a line at its spaces (parse.rs).
use sandbox_driver.Base.{
  ℕ, ◌≡◌, refl, ap, false, none, some, List, [], ◌∷◌, ◌++◌, ◌==◌, ==_refl, All,
}
use sandbox_driver.Error.{ok}
use sandbox_driver.GitFailures.{bytes_of}
use sandbox_driver.GitBatch.{cut_at, part_of, next_part, batch_header, parse_usize}

-- The text does not hold the byte.
abbrev pub Without : ℕ → List ℕ → Type 0
Without c text = All (λ b. (b == c) ≡ false) text

pub cut_at-found :
    (c : ℕ) (text rest : List ℕ)
    → Without c text
    → cut_at c (text ++ (c ∷ rest)) ≡ some (text, rest)
unfolding cut_at
cut_at-found c [] rest h = rw (==_refl c) refl
cut_at-found c (b ∷ text) rest (h, hs) = rw (h, cut_at-found c text rest hs) refl

pub cut_at-absent : (c : ℕ) (text : List ℕ) → Without c text → cut_at c text ≡ none
unfolding cut_at
cut_at-absent c [] h = refl
cut_at-absent c (b ∷ text) (h, hs) = rw (h, cut_at-absent c text hs) refl

next_part-found :
    (text rest : List ℕ)
    → Without 32 text
    → next_part (some (text ++ (32 ∷ rest))) ≡ (some text, some rest)
unfolding next_part
next_part-found text rest h = ap (part_of (text ++ (32 ∷ rest))) (cut_at-found 32 text rest h)

next_part-last : (text : List ℕ) → Without 32 text → next_part (some text) ≡ (some text, none)
unfolding next_part
next_part-last text h = ap (part_of text) (cut_at-absent 32 text h)

next_part-none : next_part none ≡ (none, none)
unfolding next_part
next_part-none = refl

-- A header line of an object, with its kind and the text of its size.
pub batch_header-object :
    (name kind size : List ℕ) (n : ℕ)
    → Without 32 name
    → Without 32 kind
    → Without 32 size
    → parse_usize size ≡ some n
    → batch_header (name ++ (32 ∷ (kind ++ (32 ∷ size)))) ≡ ok (some n)
unfolding batch_header
batch_header-object name kind size n a b c e =
    rw
      (
        next_part-found name (kind ++ (32 ∷ size)) a,
        next_part-found kind size b,
        next_part-last size c,
        e,
      )
      refl

pub batch_header-missing :
    (name : List ℕ) → Without 32 name → batch_header (name ++ (32 ∷ bytes_of "missing")) ≡ ok none
unfolding batch_header
batch_header-missing name a =
    let m : Without 32 (bytes_of "missing") =
      (refl, (refl, (refl, (refl, (refl, (refl, (refl, tt))))))) in
    rw
      (
        next_part-found name (bytes_of "missing") a,
        next_part-last (bytes_of "missing") m,
        next_part-none,
      )
      refl
