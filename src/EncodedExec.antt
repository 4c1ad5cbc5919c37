-- ===== src/EncodedExec.antt =====
-- crates/sandbox-driver-daytona/src/encoded_exec.rs: `FramedOutput`, the decoder of a command's encoded
-- output, with `ExecResult`, `ExecStreamingResult`, `OutputLoss` and `OutputStream` of exec.rs. The sink
-- is a function of what it was given before; `delivered` is the log of its calls. The counters are
-- taken to fit `u64`. Durations are whole nanoseconds.
pub mod Finish
pub mod Pieces
pub mod Records
pub mod Streams
pub mod Bash
pub mod Whole
pub mod Resync
pub mod Loss
pub mod Tests
use sandbox_driver.Base.{
  ℕ, zero, suc, ◌+◌, ◌-◌, Bool, true, false, not, ◌&&◌, ◌||◌, Option, none, some, List, [], ◌∷◌,
  ◌++◌, String, length, take, drop, ltb, ◌==◌, if◌then◌else◌, max,
}
use sandbox_driver.Error.{Error, limit_exceeded, transport, Termination, Result, ok, err}
use sandbox_driver.GitBatch.{texts_equal}
use sandbox_driver.Sanitize.{OutputSanitization, OutputSanitizer}
use sandbox_driver.Sanitize
use sandbox_driver.Capture.{OutputCaptureBuffer, CaptureStats}
use sandbox_driver.Capture
use sandbox_driver.Quoted.{StdResult, decoded, fault, decode_quoted}

pub data OutputStream : Type 0 where
  stdout stderr : OutputStream

pub record OutputLoss : Type 0 where
  pub dropped_frames : ℕ
  pub dropped_bytes : ℕ

unfoldable pub is_lossy : OutputLoss → Bool
is_lossy loss = not (loss.dropped_frames == 0) || not (loss.dropped_bytes == 0)

-- A stream's sanitizer and capture.
pub record Stream : Type 0 where
  pub sanitizer : OutputSanitizer
  pub capture : OutputCaptureBuffer

abbrev pub Delivered : Type 0
Delivered = List (OutputStream × List ℕ)

abbrev pub OutputSink : Type 0
OutputSink = Delivered → OutputStream → List ℕ → Result {0} Unit

abbrev pub max_frame_bytes : ℕ
max_frame_bytes = 512

pub record FramedOutput : Type 0 where
  pub pending : List ℕ
  pub discarding : Bool
  pub loss : OutputLoss
  pub streams : Stream × Stream
  pub sink : Option OutputSink
  pub delivered : Delivered

abbrev pub no_loss : OutputLoss
no_loss = record { dropped_frames = 0; dropped_bytes = 0 }

abbrev pub fresh : OutputSanitization → Option ℕ → Stream
fresh policy limit = record { sanitizer = Sanitize.new policy; capture = Capture.new limit }

-- `limit` is the `retained_output_limit` of the controls.
unfoldable pub new : OutputSanitization → Option ℕ → Option OutputSink → FramedOutput
new policy limit sink = record {
  pending = [];
  discarding = false;
  loss = no_loss;
  streams = (fresh policy limit, fresh policy limit);
  sink = sink;
  delivered = [];
}

-- What a method that may fail leaves.
abbrev pub Outcome : Type 0
Outcome = Result {0} Unit × FramedOutput

abbrev pub done : FramedOutput → Outcome
done f = (ok tt, f)

-- The `?` operator.
abbrev pub and_then : Outcome → (FramedOutput → Outcome) → Outcome
and_then (ok u, f) next = next f
and_then (err e, f) next = (err e, f)

abbrev pub discard : ℕ → FramedOutput → FramedOutput
discard bytes f = record f {
  loss = record {
    dropped_frames = f.loss.dropped_frames + 1;
    dropped_bytes = f.loss.dropped_bytes + bytes;
  };
}

abbrev pub stream_at : OutputStream → FramedOutput → Stream
stream_at stdout f = f.streams.0
stream_at stderr f = f.streams.1

abbrev pub set_stream : OutputStream → Stream → FramedOutput → FramedOutput
set_stream stdout s f = record f { streams = (s, f.streams.1) }
set_stream stderr s f = record f { streams = (f.streams.0, s) }

-- The call of the sink, where there is one and there are bytes.
abbrev pub deliver_to : Option OutputSink → OutputStream → List ℕ → FramedOutput → Outcome
deliver_to none stream bytes f = done f
deliver_to (some sink) stream [] f = done f
deliver_to (some sink) stream (b ∷ bytes) f = (
  sink f.delivered stream (b ∷ bytes),
  record f { delivered = f.delivered ++ ((stream, b ∷ bytes) ∷ []) },
)

-- The bytes of the sanitizer are captured, then delivered.
unfoldable pub keep : OutputStream → OutputSanitizer × List ℕ → FramedOutput → Outcome
keep stream (sanitizer, bytes) f = deliver_to f.sink stream bytes (
    set_stream stream
      (record { sanitizer = sanitizer; capture = Capture.push bytes (stream_at stream f).capture })
      f)

unfoldable pub emit : OutputStream → List ℕ → FramedOutput → Outcome
emit stream raw f = keep stream (Sanitize.push (stream_at stream f).sanitizer raw) f

unfoldable pub stream_tag : ℕ → Option OutputStream
stream_tag tag = if tag == b'O' then some stdout else if tag == b'E' then some stderr else none

abbrev pub tag_of : List ℕ → Option OutputStream
tag_of [] = none
tag_of (tag ∷ rest) = stream_tag tag

-- The last match of `push`: a record that is decoded, and one that is not.
abbrev pub on_decoded : Option OutputStream → StdResult (List ℕ) → ℕ → FramedOutput → Outcome
on_decoded none body bytes f = done (discard bytes f)
on_decoded (some stream) (fault reason) bytes f = done (discard bytes f)
on_decoded (some stream) (decoded raw) bytes f = emit stream raw f

-- A record with its newline; nothing is pending any more.
unfoldable pub on_record : List ℕ → FramedOutput → Outcome
on_record line f =
    if texts_equal line (b'\n' ∷ [])
    then done f
    else on_decoded (tag_of line) (decode_quoted (drop 1 (take (length line - 1) line)))
        (length line) f

-- A round of the loop of `push`, on a segment: the bytes to the next newline, which is among them, or to
-- the end of the chunk, where none follows.
abbrev pub Segment : Type 0
Segment = List ℕ × Bool

abbrev pub on_kept : Bool → List ℕ → FramedOutput → Outcome
on_kept true line f = on_record line (record f { pending = [] })
on_kept false line f = done (record f { pending = line })

abbrev pub on_open : Segment → FramedOutput → Outcome
on_open (bytes, ended) f =
    if ltb max_frame_bytes (length f.pending + length bytes)
    then done (record (discard (length f.pending + length bytes) f) {
      pending = [];
      discarding = not ended;
    })
    else on_kept ended (f.pending ++ bytes) f

abbrev pub on_discarding : Segment → FramedOutput → Outcome
on_discarding (bytes, ended) f = done (record f {
  loss = record f.loss { dropped_bytes = f.loss.dropped_bytes + length bytes };
  discarding = not ended;
})

unfoldable pub on_segment : Segment → FramedOutput → Outcome
on_segment s f = if f.discarding then on_discarding s f else on_open s f

-- The segments of a chunk.
abbrev pub glued : ℕ → List Segment → List Segment
glued b [] = (b ∷ [], false) ∷ []
glued b ((bytes, ended) ∷ segments) = (b ∷ bytes, ended) ∷ segments

unfoldable pub segments : List ℕ → List Segment
segments [] = []
segments (b ∷ bytes) =
    let rest = segments bytes in if b == b'\n' then (b ∷ [], true) ∷ rest else glued b rest

unfoldable pub push_segments : List Segment → FramedOutput → Outcome
push_segments [] f = done f
push_segments (s ∷ rest) f = and_then (on_segment s f) (push_segments rest)

unfoldable pub push : OutputStream → List ℕ → FramedOutput → Outcome
push stderr bytes f = emit stderr bytes f
push stdout bytes f = push_segments (segments bytes) f
