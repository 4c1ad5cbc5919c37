-- ===== src/Quoted/Plain.antt =====
-- The plain form, in which a backslash stands before each special character (encoded_exec.rs).
use sandbox_driver.Base.{
  ℕ, ◌≡◌, refl, ap, inl, inr, Bool, true, false, List, [], ◌∷◌, within, ◌==◌, ==_iff, if◌then◌else◌,
  Bool-cases, All, arith,
}
use sandbox_driver.Quoted.{decoded, printable, plain_loop, decode_plain}

abbrev pub IsPrintable : ℕ → Type 0
IsPrintable byte = within 0x20 0x7e byte ≡ true

-- Which characters the shell escapes: `special before b` is for the byte `b` behind the bytes `before`,
-- the latest first.
abbrev pub Special : Type 0
Special = List ℕ → ℕ → Bool

module _ (special : Special) where
  -- `printf %q` of printable characters behind `before`; which of them are special is the shell's matter.
  abbrev pub quote_plain : List ℕ → List ℕ → List ℕ
  quote_plain before [] = []
  quote_plain before (b ∷ bs) =
      let rest = quote_plain (b ∷ before) bs in
      if special before b then b'\\' ∷ b ∷ rest else b ∷ rest

  module _ (backslash : (before : List ℕ) → special before b'\\' ≡ true) where
    unspecial : (before : List ℕ) (b : ℕ) → special before b ≡ false → (b == 92) ≡ false
    unspecial before b s = elim (Bool-cases (b == 92)) [
      | inl e ↦
          let q = (==_iff b 92).0 e in
          let r = ap (special before) q in let k = backslash before in absurd (ground arith)
      | inr n ↦ n
    ]

    plain_loop-quote_plain :
        (before bs : List ℕ)
        → All IsPrintable bs
        → plain_loop (quote_plain before bs) false ≡ decoded bs
    unfolding plain_loop printable
    plain_loop-quote_plain before [] h = refl
    plain_loop-quote_plain before (b ∷ bs) (p, h) = elim (Bool-cases (special before b)) [
      | inl s ↦ rw (s, plain_loop-quote_plain (b ∷ before) bs h) refl
      | inr s ↦
          let n : (b == 92) ≡ false = unspecial before b s in
          rw (s, n, p, plain_loop-quote_plain (b ∷ before) bs h) refl
    ]

    pub decode_plain-quote_plain :
        (before bs : List ℕ)
        → All IsPrintable bs
        → decode_plain (quote_plain before bs) ≡ decoded bs
    unfolding decode_plain
    decode_plain-quote_plain before bs h = plain_loop-quote_plain before bs h
