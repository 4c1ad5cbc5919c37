-- ===== src/Sanitize.antt =====
-- crates/sandbox-driver/src/sanitize.rs: `OutputSanitization` and the streaming `OutputSanitizer`.
-- A byte is a number below 256. `output` is only ever appended to, so each `process_*` method
-- returns the new sanitizer and the bytes that it appends.
pub mod Clean
pub mod Chunks
pub mod Kept
pub mod Shape
pub mod Follow
pub mod Tidy
pub mod Again
pub mod Controls
pub mod Text
pub mod Tests
use sandbox_driver.Base.{
  ℕ, ◌-◌, Bool, true, false, ◌&&◌, ◌||◌, List, [], ◌∷◌, ◌++◌, ltb, within, ◌==◌, if◌then◌else◌,
}

pub data OutputSanitization : Type 0 where
  raw strip_ansi strip_all : OutputSanitization

pub data State : Type 0 where
  ground escape escape_intermediate csi osc osc_escape osc_c2 : State
  control_string control_string_escape control_string_c2 : State

pub record OutputSanitizer : Type 0 where
  pub policy : OutputSanitization
  pub state : State
  pub pending_c2 : Bool
  pub utf8_remaining : ℕ

abbrev pub new : OutputSanitization → OutputSanitizer
new p = record { policy = p; state = ground; pending_c2 = false; utf8_remaining = 0 }

abbrev pub goto : OutputSanitizer → State → OutputSanitizer × List ℕ
goto s st = (record s { state = st }, [])

-- What is appended before the bytes of a later call.
abbrev pub before : List ℕ → OutputSanitizer × List ℕ → OutputSanitizer × List ℕ
before xs (s, out) = (s, xs ++ out)

abbrev pub is_strip_all : OutputSanitization → Bool
is_strip_all strip_all = true
is_strip_all _ = false

abbrev pub is_strip_ansi : OutputSanitization → Bool
is_strip_ansi strip_ansi = true
is_strip_ansi _ = false

unfoldable pub process_c1 : OutputSanitizer → ℕ → Bool → OutputSanitizer × List ℕ
process_c1 s byte utf8_encoded =
    if byte == 0x90 || byte == 0x98 || byte == 0x9e || byte == 0x9f
    then goto s control_string
    else if byte == 0x9b
    then goto s csi
    else if byte == 0x9d
    then goto s osc
    else if byte == 0x9c
    then (s, [])
    else if is_strip_ansi s.policy
    then (s, if utf8_encoded then 0xc2 ∷ byte ∷ [] else byte ∷ [])
    else (s, [])

-- The last `match` of `process_ground`.
unfoldable pub ground_byte : OutputSanitizer → ℕ → OutputSanitizer × List ℕ
unfolding process_c1
ground_byte s byte =
    if byte == 0x1b
    then goto s escape
    else if within 0x80 0x9f byte
    then process_c1 s byte false
    else if byte == 0xc2
    then (record s { pending_c2 = true }, [])
    else if within 0xc3 0xdf byte
    then (record s { utf8_remaining = 1 }, byte ∷ [])
    else if within 0xe0 0xef byte
    then (record s { utf8_remaining = 2 }, byte ∷ [])
    else if within 0xf0 0xf4 byte
    then (record s { utf8_remaining = 3 }, byte ∷ [])
    else if (within 0x00 0x1f byte || byte == 0x7f) && is_strip_all s.policy
    then (s, if byte == b'\t' || byte == b'\n' || byte == b'\r' then byte ∷ [] else [])
    else (s, byte ∷ [])

-- `process_ground` from the test of `utf8_remaining` on.
unfoldable pub ground_text : OutputSanitizer → ℕ → OutputSanitizer × List ℕ
ground_text s byte =
    if ltb 0 s.utf8_remaining
    then if within 0x80 0xbf byte
      then (record s { utf8_remaining = s.utf8_remaining - 1 }, byte ∷ [])
      else ground_byte (record s { utf8_remaining = 0 }) byte
    else ground_byte s byte

unfoldable pub process_ground : OutputSanitizer → ℕ → OutputSanitizer × List ℕ
process_ground s byte =
    let s' = record s { pending_c2 = false } in
    if s.pending_c2
    then if within 0x80 0x9f byte
      then process_c1 s' byte true
      else if within 0xa0 0xbf byte
      then (s', 0xc2 ∷ byte ∷ [])
      else before (0xc2 ∷ []) (ground_text s' byte)
    else ground_text s byte

unfoldable pub process_escape : OutputSanitizer → ℕ → OutputSanitizer × List ℕ
process_escape s byte =
    if byte == b'['
    then goto s csi
    else if byte == b']'
    then goto s osc
    else if byte == b'P' || byte == b'X' || byte == b'^' || byte == b'_'
    then goto s control_string
    else if within 0x20 0x2f byte
    then goto s escape_intermediate
    else if within 0x30 0x7e byte
    then goto s ground
    else if byte == 0x1b
    then (s, [])
    else process_ground (record s { state = ground }) byte

unfoldable pub process_escape_intermediate : OutputSanitizer → ℕ → OutputSanitizer × List ℕ
process_escape_intermediate s byte =
    if within 0x30 0x7e byte then goto s ground else if byte == 0x1b then goto s escape else (s, [])

unfoldable pub process_csi : OutputSanitizer → ℕ → OutputSanitizer × List ℕ
process_csi s byte =
    if within 0x40 0x7e byte then goto s ground else if byte == 0x1b then goto s escape else (s, [])

unfoldable pub process_osc : OutputSanitizer → ℕ → OutputSanitizer × List ℕ
process_osc s byte =
    if byte == 0x07 || byte == 0x9c
    then goto s ground
    else if byte == 0x1b
    then goto s osc_escape
    else if byte == 0xc2
    then goto s osc_c2
    else (s, [])

unfoldable pub process_osc_escape : OutputSanitizer → ℕ → OutputSanitizer × List ℕ
process_osc_escape s byte =
    if byte == b'\\'
    then goto s ground
    else if byte == 0x1b
    then (s, [])
    else if byte == 0xc2
    then goto s osc_c2
    else goto s osc

unfoldable pub process_osc_c2 : OutputSanitizer → ℕ → OutputSanitizer × List ℕ
process_osc_c2 s byte =
    if byte == 0x07 || byte == 0x9c
    then goto s ground
    else if byte == 0x1b
    then goto s osc_escape
    else if byte == 0xc2
    then (s, [])
    else goto s osc

unfoldable pub process_control_string : OutputSanitizer → ℕ → OutputSanitizer × List ℕ
process_control_string s byte =
    if byte == 0x9c
    then goto s ground
    else if byte == 0x1b
    then goto s control_string_escape
    else if byte == 0xc2
    then goto s control_string_c2
    else (s, [])

unfoldable pub process_control_string_escape : OutputSanitizer → ℕ → OutputSanitizer × List ℕ
process_control_string_escape s byte =
    if byte == b'\\'
    then goto s ground
    else if byte == 0x1b
    then (s, [])
    else if byte == 0xc2
    then goto s control_string_c2
    else goto s control_string

unfoldable pub process_control_string_c2 : OutputSanitizer → ℕ → OutputSanitizer × List ℕ
process_control_string_c2 s byte =
    if byte == 0x9c
    then goto s ground
    else if byte == 0x1b
    then goto s control_string_escape
    else if byte == 0xc2
    then (s, [])
    else goto s control_string

unfoldable pub process_in : State → OutputSanitizer → ℕ → OutputSanitizer × List ℕ
process_in ground s byte = process_ground s byte
process_in escape s byte = process_escape s byte
process_in escape_intermediate s byte = process_escape_intermediate s byte
process_in csi s byte = process_csi s byte
process_in osc s byte = process_osc s byte
process_in osc_escape s byte = process_osc_escape s byte
process_in osc_c2 s byte = process_osc_c2 s byte
process_in control_string s byte = process_control_string s byte
process_in control_string_escape s byte = process_control_string_escape s byte
process_in control_string_c2 s byte = process_control_string_c2 s byte

abbrev pub process : OutputSanitizer → ℕ → OutputSanitizer × List ℕ
process s byte = process_in s.state s byte

-- The loop of `push`.
unfoldable pub process_all : OutputSanitizer → List ℕ → OutputSanitizer × List ℕ
process_all s [] = (s, [])
process_all s (byte ∷ chunk) = let (s', out) = process s byte in before out (process_all s' chunk)

abbrev pub is_raw : OutputSanitization → Bool
is_raw raw = true
is_raw _ = false

unfoldable pub push : OutputSanitizer → List ℕ → OutputSanitizer × List ℕ
push s chunk = if is_raw s.policy then (s, chunk) else process_all s chunk

abbrev pub is_ground : State → Bool
is_ground ground = true
is_ground _ = false

unfoldable pub finish : OutputSanitizer → OutputSanitizer × List ℕ
finish s = if is_raw s.policy then (s, []) else (
  record s { state = ground; pending_c2 = false; utf8_remaining = 0 },
  if is_ground s.state && s.pending_c2 then 0xc2 ∷ [] else [],
)

unfoldable pub sanitize : OutputSanitization → List ℕ → List ℕ
sanitize p bytes = let (s, out) = push (new p) bytes in out ++ (finish s).1

-- A stream that arrives in chunks, with `finish` after the last.
unfoldable pub stream : OutputSanitizer → List (List ℕ) → List ℕ
stream s [] = (finish s).1
stream s (chunk ∷ chunks) = let (s', out) = push s chunk in out ++ stream s' chunks
