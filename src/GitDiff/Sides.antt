-- ===== src/GitDiff/Sides.antt =====
-- Modes and blobs of a raw diff, and what git prints where there is none (parse.rs).
use sandbox_driver.Base.{
  ℕ, zero, suc, ◌≡◌, ◌≢◌, refl, ◌⊎◌, inl, inr, true, false, Option, none, some, List, [], ◌∷◌, ◌==◌,
  replicate, arith,
}
use sandbox_driver.GitBatch.Fields.{Without}
use sandbox_driver.GitDiff.{all_zeros, present}

-- A mode or a blob: `zeros n` is one zero and `n` more, which git prints where there is none.
pub data Side : Type 0 where
  zeros : ℕ → Side
  there : List ℕ → Side

abbrev pub text_of : Side → List ℕ
text_of (zeros n) = b'0' ∷ replicate n b'0'
text_of (there text) = text

abbrev pub side : Side → Option (List ℕ)
side (zeros n) = none
side (there text) = some text

-- A text of the header holds no separator.
abbrev pub IsField : List ℕ → Type 0
IsField text = Without 32 text × Without 0 text

-- Some byte of the text is no zero digit.
abbrev pub HasOther : List ℕ → Type 0
HasOther [] = ⊥
HasOther (b ∷ text) = (b ≢ b'0') ⊎ HasOther text

abbrev pub IsSide : Side → Type 0
IsSide (zeros n) = Unit
IsSide (there text) = IsField text × HasOther text

replicate-Without : (n c : ℕ) → (48 == c) ≡ false → Without c (replicate n 48)
replicate-Without zero c h = tt
replicate-Without (suc n) c h = (h, replicate-Without n c h)

pub text_of-IsField : (s : Side) → IsSide s → IsField (text_of s)
text_of-IsField (zeros n) h =
    ((refl, replicate-Without n 32 refl), (refl, replicate-Without n 0 refl))
text_of-IsField (there text) (f, o) = f

all_zeros-replicate : (n : ℕ) → all_zeros (replicate n 48) ≡ true
all_zeros-replicate zero = refl
all_zeros-replicate (suc n) = all_zeros-replicate n

all_zeros-other : (text : List ℕ) → HasOther text → all_zeros text ≡ false
all_zeros-other [] h = absurd h
all_zeros-other (b ∷ text) (inl n) = ground arith
all_zeros-other (b ∷ text) (inr h) = ground (arith, all_zeros-other text h)

pub present-text_of : (s : Side) → IsSide s → present (text_of s) ≡ side s
unfolding present
present-text_of (zeros n) h = rw (all_zeros-replicate n) refl
present-text_of (there []) (f, o) = absurd o
present-text_of (there (b ∷ text)) (f, o) = rw (all_zeros-other (b ∷ text) o) refl
