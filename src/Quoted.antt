-- ===== src/Quoted.antt =====
-- crates/sandbox-driver-daytona/src/encoded_exec.rs: `decode_quoted` and what it calls, the decoder of
-- the words that Bash's `printf %q` emits. A byte is a number below 256.
pub mod Plain
pub mod AnsiC
pub mod Fuel
pub mod Word
pub mod Tests
use sandbox_driver.Base.{
  ℕ, zero, suc, ◌+◌, ◌-◌, ◌*◌, Bool, true, false, ◌&&◌, ◌||◌, Option, none, some, List, [], ◌∷◌,
  ◌++◌, String, length, ltb, within, ◌==◌, if◌then◌else◌,
}
use sandbox_driver.GitFailures.{bytes_of}
use sandbox_driver.GitBatch.{texts_equal}

-- `StdResult<T, &'static str>`
pub data StdResult (A : Type 0) : Type 0 where
  decoded : A → StdResult A
  fault : String → StdResult A

abbrev pub pushed : ℕ → StdResult (List ℕ) → StdResult (List ℕ)
pushed byte (decoded bytes) = decoded (byte ∷ bytes)
pushed byte (fault reason) = fault reason

abbrev pub pushed_if : StdResult ℕ → StdResult (List ℕ) → StdResult (List ℕ)
pushed_if (decoded byte) rest = pushed byte rest
pushed_if (fault reason) rest = fault reason

unfoldable pub printable : ℕ → StdResult ℕ
printable byte = if within 0x20 0x7e byte then decoded byte else fault "non-ASCII output frame"

-- A byte of the plain form, by whether it is a backslash; `again` is the loop behind it, behind a
-- backslash or not.
abbrev pub plain_byte : (Bool → StdResult (List ℕ)) → ℕ → Bool → StdResult (List ℕ)
plain_byte again byte true = again true
plain_byte again byte false = pushed_if (printable byte) (again false)

-- The loop of `decode_plain`; `escaped` is behind a backslash.
unfoldable pub plain_loop : List ℕ → Bool → StdResult (List ℕ)
plain_loop [] false = decoded []
plain_loop [] true = fault "incomplete output escape"
plain_loop (byte ∷ bytes) true = pushed byte (plain_loop bytes false)
plain_loop (byte ∷ bytes) false = plain_byte (plain_loop bytes) byte (byte == b'\\')

unfoldable pub decode_plain : List ℕ → StdResult (List ℕ)
decode_plain input = plain_loop input false

-- The named escapes, and the characters that stand for themselves.
abbrev pub named : ℕ → Option ℕ
named c =
    if c == b'a'
    then some 7
    else if c == b'b'
    then some 8
    else if c == b't'
    then some 9
    else if c == b'n'
    then some 10
    else if c == b'v'
    then some 11
    else if c == b'f'
    then some 12
    else if c == b'r'
    then some 13
    else if c == b'e' || c == b'E'
    then some 27
    else if c == b'\\' || c == b'\'' || c == b'"'
    then some c
    else none

-- The octal digits behind the first, at most `left` of them: the value, and what is left.
abbrev pub octal_more : ℕ → ℕ → List ℕ → ℕ × List ℕ
octal_more zero value input = (value, input)
octal_more (suc left) value [] = (value, [])
octal_more (suc left) value (next ∷ input) =
    let more = octal_more left (value * 8 + (next - b'0')) input in
    if within b'0' b'7' next then more else (value, next ∷ input)

abbrev pub octal_value : (List ℕ → StdResult (List ℕ)) → ℕ × List ℕ → StdResult (List ℕ)
octal_value again (value, input) =
    if ltb value 256 then pushed value (again input) else fault "output escape exceeds a byte"

-- What an escaped byte stands for.
abbrev pub on_escape : (List ℕ → StdResult (List ℕ)) → ℕ → List ℕ → Option ℕ → StdResult (List ℕ)
on_escape again escaped input (some value) = pushed value (again input)
on_escape again escaped input none =
    if within b'0' b'7' escaped
    then octal_value again (octal_more 2 (escaped - b'0') input)
    else fault "unknown output escape"

abbrev pub ansi_escape : (List ℕ → StdResult (List ℕ)) → List ℕ → StdResult (List ℕ)
ansi_escape again [] = fault "incomplete output escape"
ansi_escape again (escaped ∷ input) = on_escape again escaped input (named escaped)

abbrev pub ansi_byte : (List ℕ → StdResult (List ℕ)) → ℕ → List ℕ → Bool → StdResult (List ℕ)
ansi_byte again byte input true = ansi_escape again input
ansi_byte again byte input false = pushed_if (printable byte) (again input)

-- The loop of `decode_ansi_c`, on fuel; the index `i` is the list that is left. Each round reads a byte
-- at least, so the length of the input is enough.
unfoldable pub ansi_loop : ℕ → List ℕ → StdResult (List ℕ)
ansi_loop fuel [] = decoded []
ansi_loop zero (byte ∷ input) = fault "out of fuel"
ansi_loop (suc fuel) (byte ∷ input) = ansi_byte (ansi_loop fuel) byte input (byte == b'\\')

unfoldable pub decode_ansi_c : List ℕ → StdResult (List ℕ)
decode_ansi_c input = ansi_loop (length input) input

-- `strip_suffix(b"'")`
abbrev pub kept_before : ℕ → Option (List ℕ) → Option (List ℕ)
kept_before b none = none
kept_before b (some body) = some (b ∷ body)

unfoldable pub without_quote : List ℕ → Option (List ℕ)
without_quote [] = none
without_quote (b ∷ []) = if b == b'\'' then some [] else none
without_quote (b ∷ c ∷ bs) = kept_before b (without_quote (c ∷ bs))

abbrev pub ansi_body : Option (List ℕ) → StdResult (List ℕ)
ansi_body none = fault "unterminated quoted output"
ansi_body (some body) = decode_ansi_c body

-- `strip_prefix(b"$'")`
abbrev pub ansi_prefix : List ℕ → Option (List ℕ)
ansi_prefix (a ∷ b ∷ body) = if a == b'$' && b == b'\'' then some body else none
ansi_prefix input = none

abbrev pub decode_form : List ℕ → Option (List ℕ) → StdResult (List ℕ)
decode_form input (some body) = ansi_body (without_quote body)
decode_form input none = decode_plain input

unfoldable pub decode_quoted : List ℕ → StdResult (List ℕ)
decode_quoted input =
    if texts_equal input (bytes_of "''") then decoded [] else decode_form input (ansi_prefix input)
