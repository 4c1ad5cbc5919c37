-- ===== src/Frame.antt =====
-- crates/sandbox-driver-protocol/src/channel.rs: binary frames over one connection of the data
-- transport, `FrameWriter` and `FrameReader`. Bytes are numbers below 256. The operating system is
-- a script of what each `write` does, and the bytes that arrive with how the connection ends.
pub mod Deliver
pub mod Chunks
pub mod Write
pub mod Read
pub mod RoundTrip
pub mod Tests
use sandbox_driver.Base.{
  ℕ, zero, suc, ◌+◌, ◌*◌, ◌/◌, ◌%◌, ◌^◌, Bool, true, false, ◌||◌, ◌&&◌, not, Option, none, some,
  List, [], ◌∷◌, ◌++◌, length, take, drop, ltb, ◌==◌, if◌then◌else◌,
}
use sandbox_driver.Error.{invalid_spec, transport, Result, ok, err, is_ok}

abbrev pub max_frame_bytes : ℕ
max_frame_bytes = 64 * 1024

abbrev pub header_len : ℕ
header_len = 5

pub data FrameKind : Type 0 where
  open_frame stdout stderr stdin eof : FrameKind

-- `kind as u8`
abbrev pub to_byte : FrameKind → ℕ
to_byte open_frame = 0
to_byte stdout = 1
to_byte stderr = 2
to_byte stdin = 3
to_byte eof = 4

unfoldable pub from_byte : ℕ → Option FrameKind
from_byte b =
    if b == 0
    then some open_frame
    else if b == 1
    then some stdout
    else if b == 2
    then some stderr
    else if b == 3
    then some stdin
    else if b == 4
    then some eof
    else none

abbrev pub is_eof : FrameKind → Bool
is_eof eof = true
is_eof _ = false

abbrev pub is_open : FrameKind → Bool
is_open open_frame = true
is_open _ = false

-- `u32::to_be_bytes` and `u32::from_be_bytes`
unfoldable pub to_be_bytes : ℕ → List ℕ
to_be_bytes n = n / 2 ^ 24 % 256 ∷ n / 2 ^ 16 % 256 ∷ n / 2 ^ 8 % 256 ∷ n % 256 ∷ []

unfoldable pub from_be_bytes : ℕ → ℕ → ℕ → ℕ → ℕ
from_be_bytes a b c d = a * 2 ^ 24 + b * 2 ^ 16 + c * 2 ^ 8 + d

-- What one `write` of a nonempty buffer does: it takes `n` bytes (at most the buffer), makes no
-- progress within the timeout, or fails.
pub data Written : Type 0 where
  wrote : ℕ → Written
  stalled : Written
  failed : Written

-- The connection: what was sent, and what the writes to come do. After the script every write
-- stalls.
pub record Wire : Type 0 where
  pub sent : List ℕ
  pub script : List Written

abbrev pub Outcome : Type 0
Outcome = Wire × Result (Unit {0})

-- `FrameWriter::deliver`
unfoldable pub deliver : List Written → List ℕ → List ℕ → Outcome
deliver script sent [] = (record { sent = sent; script = script }, ok tt)
deliver [] sent (b ∷ bytes) = (
  record { sent = sent; script = [] },
  err (transport "data output made no progress; delivery is incomplete"),
)
deliver (stalled ∷ script) sent (b ∷ bytes) = (
  record { sent = sent; script = script },
  err (transport "data output made no progress; delivery is incomplete"),
)
deliver (failed ∷ script) sent (b ∷ bytes) =
    (record { sent = sent; script = script }, err (transport "writing data frame"))
deliver (wrote zero ∷ script) sent (b ∷ bytes) =
    (record { sent = sent; script = script }, err (transport "writing data frame"))
deliver (wrote (suc n) ∷ script) sent (b ∷ bytes) =
    deliver script (sent ++ b ∷ take n bytes) (drop n bytes)

-- `?` on an outcome: go on with the wire, or stop.
abbrev pub after : Outcome → (Wire → Outcome) → Outcome
after (w, ok u) f = f w
after (w, err e) f = (w, err e)

abbrev pub header : FrameKind → ℕ → List ℕ
header kind n = to_byte kind ∷ to_be_bytes n

-- `FrameWriter::write_one`
unfoldable pub write_one : FrameKind → List ℕ → Wire → Outcome
write_one kind payload w =
    if ltb (length payload) (2 ^ 32)
    then after (deliver w.script w.sent (header kind (length payload)))
        (λ v. deliver v.script v.sent payload)
    else (w, err (invalid_spec "frame" "payload exceeds the frame size"))

-- `slice::chunks`: pieces of `n` bytes, the last one shorter. The fuel is the length.
unfoldable pub chunks : ℕ → ℕ → List ℕ → List (List ℕ)
chunks fuel n [] = []
chunks zero n (b ∷ bytes) = []
chunks (suc fuel) n (b ∷ bytes) = take n (b ∷ bytes) ∷ chunks fuel n (drop n (b ∷ bytes))

unfoldable pub write_chunks : FrameKind → List (List ℕ) → Wire → Outcome
write_chunks kind [] w = (w, ok tt)
write_chunks kind (c ∷ cs) w = after (write_one kind c w) (λ v. write_chunks kind cs v)

pub record FrameWriter : Type 0 where
  pub max_bytes : ℕ
  pub finished : Bool

abbrev pub is_empty {ℓ} : {A : Type ℓ} → List A → Bool
is_empty [] = true
is_empty (x ∷ xs) = false

-- `FrameWriter::write` behind its guards.
unfoldable pub write_frames : FrameWriter → FrameKind → List ℕ → Wire → Outcome
write_frames f kind payload w =
    if is_empty payload
    then write_one kind payload w
    else write_chunks kind (chunks (length payload) f.max_bytes payload) w

-- `FrameWriter::write`
unfoldable pub write : FrameWriter → FrameKind → List ℕ → Wire → Outcome
write f kind payload w =
    if f.finished || f.max_bytes == 0 || ltb max_frame_bytes f.max_bytes
    then (w, err (invalid_spec "frame" "invalid frame limit or write after EOF"))
    else if is_eof kind && not (is_empty payload)
    then (w, err (invalid_spec "frame" "EOF must have an empty payload"))
    else if is_open kind && ltb f.max_bytes (length payload)
    then (w, err (invalid_spec "frame" "open cannot span frames"))
    else write_frames f kind payload w

-- What `flush` does within the timeout.
pub data Flushed : Type 0 where
  flushed flush_stalled flush_failed : Flushed

abbrev pub flush_result : Flushed → Result (Unit {0})
flush_result flushed = ok tt
flush_result flush_stalled = err (transport "data channel flush made no progress")
flush_result flush_failed = err (transport "flushing data channel")

-- `FrameWriter::finish`: the writer is finished once its `Eof` is sent, whatever the flush does.
unfoldable pub finish : FrameWriter → Flushed → Wire → FrameWriter × Outcome
finish f flush w =
    let (v, r) = write f eof [] w in
    if is_ok r then (record f { finished = true }, (v, flush_result flush)) else (f, (v, r))

-- How the connection ends behind the bytes that arrive.
pub data Ending : Type 0 where
  closed broken : Ending

pub record FrameReader : Type 0 where
  pub max_bytes : ℕ
  pub finished : Bool
  pub input : List ℕ
  pub ending : Ending

abbrev pub Frame : Type 0
Frame = FrameKind × List ℕ

-- `read_exact`: the bytes, or the failure that `context` names.
abbrev pub read_exact : ℕ → List ℕ → Option (List ℕ × List ℕ)
read_exact n input = if ltb (length input) n then none else some (take n input, drop n input)

abbrev pub read_payload : FrameReader → FrameKind → ℕ → FrameReader × Result (Option Frame)
read_payload r kind n = elim (read_exact n r.input) [
  | none ↦ (record r { input = [] }, err (transport "reading data frame"))
  | some (payload, rest) ↦ (record r { input = rest }, ok (some (kind, payload)))
]

-- `FrameReader::read` behind the four length bytes.
unfoldable pub read_body : FrameReader → Option FrameKind → ℕ → FrameReader × Result (Option Frame)
read_body r none n = (r, err (invalid_spec "frame" "unknown kind"))
read_body r (some kind) n =
    if ltb r.max_bytes n
    then (r, err (invalid_spec "frame" "payload exceeds the limit"))
    else if is_eof kind
    then if not (n == 0)
      then (r, err (invalid_spec "frame" "EOF must have an empty payload"))
      else read_payload (record r { finished = true }) kind n
    else read_payload r kind n

-- `FrameReader::read` behind the first byte.
unfoldable pub read_length : FrameReader → ℕ → List ℕ → FrameReader × Result (Option Frame)
read_length r k (a ∷ b ∷ c ∷ d ∷ rest) =
    read_body (record r { input = rest }) (from_byte k) (from_be_bytes a b c d)
read_length r k _ = (record r { input = [] }, err (transport "reading data frame header"))

unfoldable pub read_first : FrameReader → List ℕ → Ending → FrameReader × Result (Option Frame)
read_first r [] closed =
    (r, err (transport "data channel closed before EOF; delivery is incomplete"))
read_first r [] broken = (r, err (transport "reading data frame header"))
read_first r (k ∷ input) ending = read_length r k input

-- `FrameReader::read`
unfoldable pub read : FrameReader → FrameReader × Result (Option Frame)
read r =
    if r.finished
    then (r, ok none)
    else if r.max_bytes == 0 || ltb max_frame_bytes r.max_bytes
    then (r, err (invalid_spec "frame" "invalid frame limit"))
    else read_first r r.input r.ending

abbrev pub stdin_payload : Result (Option Frame) → Option (List ℕ)
stdin_payload (ok (some (stdin, payload))) = some payload
stdin_payload _ = none

-- `FrameReader::next_stdin`
unfoldable pub next_stdin : FrameReader → FrameReader × Option (List ℕ)
next_stdin r = let (s, out) = read r in (s, stdin_payload out)
