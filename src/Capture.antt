-- ===== src/Capture.antt =====
-- crates/sandbox-driver/src/capture.rs: `OutputCaptureBuffer`, the bounded retention of an output, and
-- `CaptureStats` of exec.rs. The counters are taken to fit `usize`.
pub mod Steps
pub mod Policy
pub mod Tests
use sandbox_driver.Base.{
  ℕ, ◌+◌, ◌-◌, ◌/◌, min, Bool, false, Option, none, some, List, [], ◌∷◌, ◌++◌, length, take, drop,
  ltb, ◌==◌, if◌then◌else◌,
}

pub record CaptureStats : Type 0 where
  pub observed_bytes : ℕ
  pub retained_bytes : ℕ
  pub omitted_bytes : ℕ
  pub truncated : Bool

pub record OutputCaptureBuffer : Type 0 where
  pub cap : Option ℕ
  pub head_cap : ℕ
  pub head : List ℕ
  pub tail : List ℕ
  pub observed : ℕ
  pub omitted : ℕ

-- `cap.unwrap_or(0)`
abbrev pub cap_of : Option ℕ → ℕ
cap_of none = 0
cap_of (some c) = c

abbrev pub half_of : Option ℕ → ℕ
half_of none = 0
half_of (some c) = c / 2

unfoldable pub new : Option ℕ → OutputCaptureBuffer
new cap = record {
  cap = some (cap_of cap);
  head_cap = half_of cap;
  head = [];
  tail = [];
  observed = 0;
  omitted = 0;
}

-- A round of the loop over the bytes behind the head.
unfoldable pub push_byte : ℕ → ℕ → OutputCaptureBuffer → OutputCaptureBuffer
push_byte tail_cap byte b =
    if length b.tail == tail_cap
    then record b { tail = drop 1 b.tail ++ (byte ∷ []); omitted = b.omitted + 1 }
    else record b { tail = b.tail ++ (byte ∷ []) }

unfoldable pub push_tail : ℕ → List ℕ → OutputCaptureBuffer → OutputCaptureBuffer
push_tail tail_cap [] b = b
push_tail tail_cap (byte ∷ rest) b = push_tail tail_cap rest (push_byte tail_cap byte b)

-- What `push` does with the bytes that the head did not take.
abbrev pub push_rest : ℕ → List ℕ → OutputCaptureBuffer → OutputCaptureBuffer
push_rest tail_cap rest b =
    if tail_cap == 0
    then record b { omitted = b.omitted + length rest }
    else push_tail tail_cap rest b

-- How many bytes of a chunk the head takes.
abbrev pub head_take : List ℕ → OutputCaptureBuffer → ℕ
head_take rest b =
    if ltb (length b.head) b.head_cap then min (b.head_cap - length b.head) (length rest) else 0

abbrev pub push_capped : ℕ → List ℕ → OutputCaptureBuffer → OutputCaptureBuffer
push_capped cap rest b =
    let n = head_take rest b in
    push_rest (cap - b.head_cap) (drop n rest) (record b { head = b.head ++ take n rest })

abbrev pub push_with : Option ℕ → List ℕ → OutputCaptureBuffer → OutputCaptureBuffer
push_with none chunk b = record b { head = b.head ++ chunk }
push_with (some cap) chunk b = push_capped cap chunk b

unfoldable pub push : List ℕ → OutputCaptureBuffer → OutputCaptureBuffer
push chunk b = push_with b.cap chunk (record b { observed = b.observed + length chunk })

unfoldable pub stats : OutputCaptureBuffer → CaptureStats
stats b = record {
  observed_bytes = b.observed;
  retained_bytes = length b.head + length b.tail;
  omitted_bytes = b.omitted;
  truncated = false;
}

unfoldable pub retained_slices : OutputCaptureBuffer → List ℕ × List ℕ
retained_slices b = (b.head, b.tail)

unfoldable pub to_bytes : OutputCaptureBuffer → List ℕ
to_bytes b = b.head ++ b.tail

unfoldable pub into_parts : OutputCaptureBuffer → List ℕ × CaptureStats
into_parts b =
    let bytes = b.head ++ b.tail in
    (
      bytes,
      record {
        observed_bytes = b.observed;
        retained_bytes = length bytes;
        omitted_bytes = b.omitted;
        truncated = false;
      },
    )
