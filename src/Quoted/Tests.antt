-- ===== src/Quoted/Tests.antt =====
-- A word of each form.
use sandbox_driver.Base.{
  ℕ, ◌≡◌, refl, Bool, true, false, ◌||◌, ◌==◌, if◌then◌else◌, List, [], ◌∷◌, within, arith,
}
use sandbox_driver.GitFailures.{bytes_of}
use sandbox_driver.Quoted.{
  decoded, fault, without_quote, ansi_loop, decode_ansi_c, decode_quoted, decode_plain, plain_loop,
  printable,
}
use sandbox_driver.Quoted.Plain.{Special}
use sandbox_driver.Quoted.Word.{printf_q, decode_quoted-printf_q}

abbrev starts : List ℕ → Bool
starts [] = true
starts (b ∷ before) = false

abbrev opens : List ℕ → Bool
opens [] = false
opens (b ∷ before) = b == b':' || b == b'='

-- As Bash does: `#` at the start, `~` there and behind a colon or an equals sign, and the other
-- characters that mean something to the shell.
abbrev special : Special
special before b =
    if b == b'#'
    then starts before
    else if b == b'~'
    then starts before || opens before
    else within 32 36 b
      || within 38 42 b
      || within 59 60 b
      || within 62 63 b
      || within 91 94 b
      || b == b'`'
      || within 123 125 b

by_position : printf_q special (bytes_of "#a#") ≡ bytes_of "\\#a#"
by_position = refl

abbrev binary : List ℕ
binary = 0 ∷ 255 ∷ 39 ∷ 10 ∷ 65 ∷ []

decode_quoted-printf_q_example : decode_quoted (printf_q special binary) ≡ decoded binary
decode_quoted-printf_q_example =
    decode_quoted-printf_q special (λ before. refl) (λ before. refl) binary
      (ground arith, (ground arith, (ground arith, (ground arith, (ground arith, tt)))))

decode_quoted-torn : decode_quoted (bytes_of "a\\") ≡ fault "incomplete output escape"
unfolding decode_quoted decode_plain plain_loop printable
decode_quoted-torn = refl

-- The record of a NUL, which no text of Bash holds, and for which the encoder writes this word itself.
decode_quoted-nul : decode_quoted (bytes_of "$'\\0'") ≡ decoded (0 ∷ [])
unfolding decode_quoted decode_ansi_c ansi_loop without_quote
decode_quoted-nul = refl
