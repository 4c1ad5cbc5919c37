-- ===== src/Quoted/AnsiC.antt =====
-- The ANSI-C form, with its named and octal escapes (encoded_exec.rs).
use sandbox_driver.Base.{
  ℕ, zero, suc, ◌+◌, ◌-◌, ◌*◌, ◌/◌, ◌%◌, ◌≤◌, ◌<◌, ◌≡◌, refl, ap, ◌∙◌, inl, inr, true, false, ◌||◌,
  Option, none, some, List, [], ◌∷◌, length, ltb, within, ◌==◌, if◌then◌else◌, Bool-cases,
  Option-cases, All, arith,
}
use sandbox_driver.Quoted.{decoded, pushed, printable, named, octal_more, ansi_loop, decode_ansi_c}

abbrev pub IsByte : ℕ → Type 0
IsByte byte = byte < 256

-- An octal escape, of three digits.
abbrev pub octal : ℕ → List ℕ → List ℕ
octal b rest = b'\\' ∷ (48 + b / 64) ∷ (48 + b / 8 % 8) ∷ (48 + b % 8) ∷ rest

abbrev pub letter : ℕ → Option ℕ
letter b =
    if b == 7
    then some b'a'
    else if b == 8
    then some b'b'
    else if b == 9
    then some b't'
    else if b == 10
    then some b'n'
    else if b == 11
    then some b'v'
    else if b == 12
    then some b'f'
    else if b == 13
    then some b'r'
    else if b == 27
    then some b'E'
    else if b == b'\\' || b == b'\''
    then some b
    else none

abbrev pub quote_byte_as : ℕ → List ℕ → Option ℕ → List ℕ
quote_byte_as b rest (some c) = b'\\' ∷ c ∷ rest
quote_byte_as b rest none = if within 0x20 0x7e b then b ∷ rest else octal b rest

-- How Bash writes a byte of a word of the form `$'...'` in the C locale.
abbrev pub quote_byte : ℕ → List ℕ → List ℕ
quote_byte b rest = quote_byte_as b rest (letter b)

abbrev pub quote_ansi : List ℕ → List ℕ
quote_ansi [] = []
quote_ansi (b ∷ bs) = quote_byte b (quote_ansi bs)

octal_more-three :
    (b : ℕ) (rest : List ℕ)
    → b < 256
    → octal_more 2 (48 + b / 64 - 48) ((48 + b / 8 % 8) ∷ (48 + b % 8) ∷ rest) ≡ (b, rest)
octal_more-three b rest h =
    let d1 : within 48 55 (48 + b / 8 % 8) ≡ true = ground arith in
    let d2 : within 48 55 (48 + b % 8) ≡ true = ground arith in
    let v : ((48 + b / 64 - 48) * 8 + (48 + b / 8 % 8 - 48)) * 8 + (48 + b % 8 - 48) ≡ b =
      omega arith in
    rw (d1, d2, v) refl

named-letter : (b c : ℕ) → letter b ≡ some c → named c ≡ some b
named-letter b c h = ground arith

named-digit : (d : ℕ) → d < 8 → named (48 + d) ≡ none
named-digit d h = ground arith

-- A byte that has no letter.
ansi_loop-unnamed :
    (fuel b : ℕ) (rest : List ℕ)
    → b < 256
    → letter b ≡ none
    → ansi_loop (suc fuel) (quote_byte_as b rest none) ≡ pushed b (ansi_loop fuel rest)
unfolding ansi_loop printable
ansi_loop-unnamed fuel b rest h e = elim (Bool-cases (within 0x20 0x7e b)) [
  | inl p ↦ let n : (b == 92) ≡ false = ground arith in rw (p, n, p) refl
  | inr p ↦
      let d : within 48 55 (48 + b / 64) ≡ true = ground arith in
      let l : ltb b 256 ≡ true = ground arith in
      rw (p, named-digit (b / 64) (omega arith), d, octal_more-three b rest h, l) refl
]

-- A byte that Bash wrote is read back by one round of the loop.
ansi_loop-quote_byte :
    (fuel b : ℕ) (rest : List ℕ)
    → b < 256
    → ansi_loop (suc fuel) (quote_byte b rest) ≡ pushed b (ansi_loop fuel rest)
unfolding ansi_loop printable
ansi_loop-quote_byte fuel b rest h = elim (Option-cases (letter b)) [
  | inr (c, e) ↦ rw (e, named-letter b c e) refl
  | inl e ↦ rw e (ansi_loop-unnamed fuel b rest h e)
]

length-quote_byte : (b : ℕ) (rest : List ℕ) → length rest < length (quote_byte b rest)
length-quote_byte b rest = elim (Option-cases (letter b)) [
  | inr (c, e) ↦ rw e (omega arith)
  | inl e ↦ rw e (ground arith)
]

ansi_loop-quote_ansi :
    (fuel : ℕ) (bs : List ℕ)
    → All IsByte bs
    → length (quote_ansi bs) ≤ fuel
    → ansi_loop fuel (quote_ansi bs) ≡ decoded bs
unfolding ansi_loop
ansi_loop-quote_ansi fuel [] h k = refl
ansi_loop-quote_ansi zero (b ∷ bs) h k = absurd (omega (arith, length-quote_byte b (quote_ansi bs)))
ansi_loop-quote_ansi (suc fuel) (b ∷ bs) (p, h) k =
    ansi_loop-quote_byte fuel b (quote_ansi bs) p
    ∙ ap (pushed b)
        (ansi_loop-quote_ansi fuel bs h (omega (arith, length-quote_byte b (quote_ansi bs))))

pub decode_ansi_c-quote_ansi :
    (bs : List ℕ) → All IsByte bs → decode_ansi_c (quote_ansi bs) ≡ decoded bs
unfolding decode_ansi_c
decode_ansi_c-quote_ansi bs h = ansi_loop-quote_ansi (length (quote_ansi bs)) bs h (omega arith)
