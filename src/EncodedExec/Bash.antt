-- ===== src/EncodedExec/Bash.antt =====
-- The encoder's records are made with `printf %q` (encoded_exec.rs).
use sandbox_driver.Base.{
  ℕ, ◌≤◌, ◌≡◌, refl, inl, inr, Bool, true, false, some, List, [], ◌∷◌, length, within, ◌==◌,
  Bool-cases, Option-cases, All, All-append, arith,
}
use sandbox_driver.GitBatch.Fields.{Without}
use sandbox_driver.Quoted.Plain.{IsPrintable, Special, quote_plain}
use sandbox_driver.Quoted.AnsiC.{IsByte, quote_ansi, quote_byte, letter}
use sandbox_driver.Quoted.Word.{
  printf_q, word_of, all_printable, all_printable-All, decode_quoted-printf_q,
}
use sandbox_driver.EncodedExec.{OutputStream, max_frame_bytes}
use sandbox_driver.EncodedExec.Records.{Record, IsRecord, line}

quote_plain-Without :
    (special : Special) (before bs : List ℕ)
    → All IsPrintable bs
    → Without 10 (quote_plain special before bs)
quote_plain-Without special before [] h = tt
quote_plain-Without special before (b ∷ bs) (p, h) = elim (Bool-cases (special before b)) [
  | inl s ↦ rw s (refl, (ground arith, quote_plain-Without special (b ∷ before) bs h))
  | inr s ↦ rw s (ground arith, quote_plain-Without special (b ∷ before) bs h)
]

letter-Without : (b c : ℕ) → letter b ≡ some c → (c == 10) ≡ false
letter-Without b c h = ground arith

quote_byte-Without :
    (b : ℕ) (rest : List ℕ) → IsByte b → Without 10 rest → Without 10 (quote_byte b rest)
quote_byte-Without b rest h k = elim (Option-cases (letter b)) [
  | inr (c, e) ↦ rw e (refl, (letter-Without b c e, k))
  | inl e ↦ rw e (elim (Bool-cases (within 0x20 0x7e b)) [
    | inl p ↦ rw p (ground arith, k)
    | inr p ↦ rw p (refl, (ground arith, (ground arith, (ground arith, k))))
  ])
]

quote_ansi-Without : (bs : List ℕ) → All IsByte bs → Without 10 (quote_ansi bs)
quote_ansi-Without [] h = tt
quote_ansi-Without (b ∷ bs) (p, h) =
    quote_byte-Without b (quote_ansi bs) p (quote_ansi-Without bs h)

word_of-Without :
    (special : Special) (bs : List ℕ) (p : Bool)
    → All IsByte bs
    → all_printable bs ≡ p
    → Without 10 (word_of special bs p)
word_of-Without special bs true h e = quote_plain-Without special [] bs (all_printable-All bs e)
word_of-Without special bs false h e = (
  refl,
  (
    refl,
    All-append (λ b. (b == 10) ≡ false) (quote_ansi bs) (39 ∷ []) (quote_ansi-Without bs h)
        (refl, tt),
  ),
)

printf_q-Without :
    (special : Special) (bs : List ℕ) → All IsByte bs → Without 10 (printf_q special bs)
printf_q-Without special [] h = (refl, (refl, tt))
printf_q-Without special (b ∷ bs) h =
    word_of-Without special (b ∷ bs) (all_printable (b ∷ bs)) h refl

-- The record of a chunk that the encoder read.
abbrev pub encoded : Special → OutputStream → List ℕ → Record
encoded special s raw = record { stream = s; body = printf_q special raw; raw = raw }

-- It is a record where it is short enough and the shell escapes the backslash and the quote.
pub encoded-IsRecord :
    (special : Special) (s : OutputStream) (raw : List ℕ)
    → ((before : List ℕ) → special before b'\\' ≡ true)
    → ((before : List ℕ) → special before b'\'' ≡ true)
    → All IsByte raw
    → length (line (encoded special s raw)) ≤ max_frame_bytes
    → IsRecord (encoded special s raw)
encoded-IsRecord special s raw a b h k =
    (printf_q-Without special raw h, k, decode_quoted-printf_q special a b raw h)
