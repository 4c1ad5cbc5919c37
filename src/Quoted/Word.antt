-- ===== src/Quoted/Word.antt =====
-- Words of both forms (encoded_exec.rs).
use sandbox_driver.Base.{
  ℕ, ◌≡◌, refl, ap, ◌∙◌, inl, inr, Bool, true, false, ◌&&◌, some, List, [], ◌∷◌, ◌++◌, within, ◌==◌,
  ==_iff, Bool-cases, All, arith,
}
use sandbox_driver.GitFailures.{bytes_of}
use sandbox_driver.Quoted.{
  decoded, ansi_body, without_quote, kept_before, decode_quoted, decode_plain,
}
use sandbox_driver.Quoted.Plain.{IsPrintable, Special, quote_plain, decode_plain-quote_plain}
use sandbox_driver.Quoted.AnsiC.{IsByte, quote_ansi, decode_ansi_c-quote_ansi}

abbrev pub all_printable : List ℕ → Bool
all_printable [] = true
all_printable (b ∷ bs) = within 0x20 0x7e b && all_printable bs

pub all_printable-All : (bs : List ℕ) → all_printable bs ≡ true → All IsPrintable bs
all_printable-All [] h = tt
all_printable-All (b ∷ bs) h = (ground arith, all_printable-All bs (ground arith))

abbrev pub word_of : Special → List ℕ → Bool → List ℕ
word_of special bs true = quote_plain special [] bs
word_of special bs false = b'$' ∷ b'\'' ∷ (quote_ansi bs ++ (b'\'' ∷ []))

-- `printf %q`: nothing is two quotes, printable characters stand in the plain form, and anything else
-- in the ANSI-C form. `special` says which characters the shell escapes in the plain form, where Bash
-- has some, as `#` and `~`, escaped only at some positions.
abbrev pub printf_q : Special → List ℕ → List ℕ
printf_q special [] = bytes_of "''"
printf_q special (b ∷ bs) = word_of special (b ∷ bs) (all_printable (b ∷ bs))

without_quote-last : (body : List ℕ) → without_quote (body ++ (39 ∷ [])) ≡ some body
unfolding without_quote
without_quote-last [] = refl
without_quote-last (b ∷ []) = refl
without_quote-last (b ∷ c ∷ body) = ap (kept_before b) (without_quote-last (c ∷ body))

-- Whether a text starts with a quote.
abbrev quote_first : List ℕ → Bool
quote_first [] = false
quote_first (b ∷ bs) = b == 39

decode_quoted-plain :
    (b : ℕ) (bs : List ℕ)
    → (b == 39) ≡ false
    → quote_first bs ≡ false
    → decode_quoted (b ∷ bs) ≡ decode_plain (b ∷ bs)
unfolding decode_quoted
decode_quoted-plain b [] h k = rw h refl
decode_quoted-plain b (c ∷ bs) h k = elim (Bool-cases (b == 36)) [
  | inl e ↦ rw (h, e, k) refl
  | inr e ↦ rw (h, e) refl
]

decode_quoted-escaped : (w : List ℕ) → decode_quoted (92 ∷ w) ≡ decode_plain (92 ∷ w)
unfolding decode_quoted
decode_quoted-escaped [] = refl
decode_quoted-escaped (c ∷ w) = refl

module _ (special : Special) (backslash : (before : List ℕ) → special before b'\\' ≡ true)
    (quote : (before : List ℕ) → special before b'\'' ≡ true) where
  unquoted : (before : List ℕ) (b : ℕ) → special before b ≡ false → (b == 39) ≡ false
  unquoted before b s = elim (Bool-cases (b == 39)) [
    | inl e ↦
        let q = (==_iff b 39).0 e in
        let r = ap (special before) q in let k = quote before in absurd (ground arith)
    | inr n ↦ n
  ]

  quote_first-quote_plain :
      (before bs : List ℕ) → quote_first (quote_plain special before bs) ≡ false
  quote_first-quote_plain before [] = refl
  quote_first-quote_plain before (b ∷ bs) = elim (Bool-cases (special before b)) [
    | inl s ↦ rw s refl
    | inr s ↦ rw s (unquoted before b s)
  ]

  decode_quoted-quote_plain :
      (b : ℕ) (bs : List ℕ)
      → decode_quoted (quote_plain special [] (b ∷ bs))
        ≡ decode_plain (quote_plain special [] (b ∷ bs))
  decode_quoted-quote_plain b bs = elim (Bool-cases (special [] b)) [
    | inl s ↦ rw s (decode_quoted-escaped (b ∷ quote_plain special (b ∷ []) bs))
    | inr s ↦ rw s (
        decode_quoted-plain b (quote_plain special (b ∷ []) bs) (unquoted [] b s)
          (quote_first-quote_plain (b ∷ []) bs))
  ]

  word_of-decoded :
      (b : ℕ) (bs : List ℕ)
      → All IsByte (b ∷ bs)
      → (p : Bool) → all_printable (b ∷ bs) ≡ p
      → decode_quoted (word_of special (b ∷ bs) p) ≡ decoded (b ∷ bs)
  unfolding decode_quoted
  word_of-decoded b bs h true e =
      decode_quoted-quote_plain b bs
      ∙ decode_plain-quote_plain special backslash [] (b ∷ bs) (all_printable-All (b ∷ bs) e)
  word_of-decoded b bs h false e =
      ap ansi_body (without_quote-last (quote_ansi (b ∷ bs))) ∙ decode_ansi_c-quote_ansi (b ∷ bs) h

  -- The word that `printf %q` makes of a text of bytes is read back as exactly them, whichever characters
  -- the shell escapes at which positions, where it always escapes the backslash and the quote.
  pub decode_quoted-printf_q :
      (bs : List ℕ) → All IsByte bs → decode_quoted (printf_q special bs) ≡ decoded bs
  unfolding decode_quoted
  decode_quoted-printf_q [] h = refl
  decode_quoted-printf_q (b ∷ bs) h = word_of-decoded b bs h (all_printable (b ∷ bs)) refl
