-- ===== src/Id.antt =====
-- crates/sandbox-driver/src/id.rs: validation of identifiers. A text is the list of its bytes; for
-- `validate_id`, the list of its characters' code points.
pub mod Valid
pub mod Tests
use sandbox_driver.Base.{
  ℕ, ◌+◌, ◌≤◌, ◌≡◌, Bool, true, false, not, ◌&&◌, ◌||◌, List, [], ◌∷◌, map, length, ltb, leb,
  within, ◌==◌, if◌then◌else◌,
}

-- `InvalidIdError`, without the kind and the value that it repeats
pub data InvalidIdError : Type 0 where
  empty too_long bad_characters bad_label bad_digest : InvalidIdError

pub data Checked (A : Type 0) : Type 0 where
  valid : A → Checked A
  invalid : InvalidIdError → Checked A

abbrev pub max_id_len : ℕ
max_id_len = 256

abbrev pub all : (ℕ → Bool) → List ℕ → Bool
all p [] = true
all p (b ∷ bs) = p b && all p bs

abbrev pub is_empty : List ℕ → Bool
is_empty [] = true
is_empty _ = false

-- `char::len_utf8`, summed
abbrev pub utf8_len : List ℕ → ℕ
utf8_len [] = 0
utf8_len (c ∷ cs) =
    let rest = utf8_len cs in
    (if ltb c 0x80 then 1 else if ltb c 0x800 then 2 else if ltb c 0x10000 then 3 else 4) + rest

-- `char::is_control` and `char::is_whitespace`
abbrev pub is_control : ℕ → Bool
is_control c = leb c 0x1f || within 0x7f 0x9f c

abbrev pub is_whitespace : ℕ → Bool
is_whitespace c =
    within 0x9 0xd c
    || c == 0x20
    || c == 0x85
    || c == 0xa0
    || c == 0x1680
    || within 0x2000 0x200a c
    || c == 0x2028
    || c == 0x2029
    || c == 0x202f
    || c == 0x205f
    || c == 0x3000

abbrev plain : ℕ → Bool
plain c = not (is_control c || is_whitespace c)

unfoldable pub validate_id : List ℕ → Checked (List ℕ)
validate_id value =
    if is_empty value
    then invalid empty
    else if ltb max_id_len (utf8_len value)
    then invalid too_long
    else if not (all plain value)
    then invalid bad_characters
    else valid value

abbrev pub is_label_byte : ℕ → Bool
is_label_byte b = within b'a' b'z' b || within b'0' b'9' b || b == b'-'

abbrev pub starts_with_hyphen : List ℕ → Bool
starts_with_hyphen [] = false
starts_with_hyphen (b ∷ bs) = b == b'-'

abbrev pub ends_with_hyphen : List ℕ → Bool
ends_with_hyphen [] = false
ends_with_hyphen (b ∷ []) = b == b'-'
ends_with_hyphen (b ∷ c ∷ bs) = ends_with_hyphen (c ∷ bs)

unfoldable pub validate_label : List ℕ → ℕ → Checked Unit
validate_label value max_len =
    if is_empty value
    then invalid empty
    else if ltb max_len (length value)
    then invalid too_long
    else if not (all is_label_byte value) || starts_with_hyphen value || ends_with_hyphen value
    then invalid bad_label
    else valid tt

abbrev of_label : List ℕ → Checked Unit → Checked (List ℕ)
of_label value (valid _) = valid value
of_label value (invalid e) = invalid e

unfoldable pub validate_kind : List ℕ → Checked (List ℕ)
validate_kind value = of_label value (validate_label value 64)

abbrev pub is_hex : ℕ → Bool
is_hex b = within b'0' b'9' b || within b'a' b'f' b || within b'A' b'F' b

-- `make_ascii_lowercase`
abbrev pub lower : ℕ → ℕ
lower b = if within b'A' b'Z' b then b + 32 else b

unfoldable pub validate_sha256 : List ℕ → Checked (List ℕ)
validate_sha256 value =
    if not (length value == 64) || not (all is_hex value)
    then invalid bad_digest
    else valid (map lower value)
