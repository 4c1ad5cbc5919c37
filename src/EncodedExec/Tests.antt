-- ===== src/EncodedExec/Tests.antt =====
-- Two records in three chunks, and a torn one.
use mathlib.Core.List.{flatten}
use sandbox_driver.Base.{
  ℕ, ◌≡◌, refl, inl, true, false, ◌||◌, none, some, List, [], ◌∷◌, ◌++◌, within, All, arith,
}
use sandbox_driver.Error.{exited, ok}
use sandbox_driver.GitFailures.{bytes_of}
use sandbox_driver.Sanitize.{raw}
use sandbox_driver.Sanitize
use sandbox_driver.Capture
use sandbox_driver.Capture.{CaptureStats}
use sandbox_driver.EncodedExec.{
  stdout, stderr, FramedOutput, no_loss, is_lossy, new, push, and_then, segments, push_segments,
  on_segment, on_record, keep, stream_tag,
}
use sandbox_driver.EncodedExec.Finish.{ExecStreamingResult, finish}
use sandbox_driver.EncodedExec.Pieces.{push_all}
use sandbox_driver.EncodedExec.Records.{Record, IsRecord, lines, emit_all}
use sandbox_driver.Quoted.Plain.{Special}
use sandbox_driver.EncodedExec.Bash.{encoded, encoded-IsRecord}
use sandbox_driver.EncodedExec.Whole.{finish_after, complete, finish_after-lines}
use sandbox_driver.EncodedExec.Resync.{push-resync}
use sandbox_driver.EncodedExec.Loss.{Reports, finish-Reports}

-- A shell that escapes all but letters.
abbrev special : Special
special before b = within 32 64 b || within 91 96 b

abbrev records : List Record
records = encoded special stdout (1 ∷ 65 ∷ []) ∷ encoded special stderr (66 ∷ 32 ∷ []) ∷ []

records-IsRecord : All IsRecord records
records-IsRecord = (
  encoded-IsRecord special stdout (1 ∷ 65 ∷ []) (λ before. refl) (λ before. refl)
      (ground arith, (ground arith, tt)) (omega arith),
  (
    encoded-IsRecord special stderr (66 ∷ 32 ∷ []) (λ before. refl) (λ before. refl)
        (ground arith, (ground arith, tt)) (omega arith),
    tt,
  ),
)

abbrev empty_stats : CaptureStats
empty_stats = record {
  observed_bytes = 0;
  retained_bytes = 0;
  omitted_bytes = 0;
  truncated = false;
}

abbrev answer : ExecStreamingResult
answer = record {
  result = record {
    stdout = [];
    stderr = [];
    exit_code = some 0;
    signal = none;
    termination = exited;
    duration = 5;
  };
  streams_separated = false;
  live_streaming = true;
  stdout_capture = empty_stats;
  stderr_capture = empty_stats;
  output_loss = no_loss;
}

abbrev in_three : List (List ℕ)
in_three = bytes_of "O$'\\00" ∷ bytes_of "1A'\nEB" ∷ bytes_of "\\ \n" ∷ []

finish_after-lines_example :
    finish_after answer (push_all in_three (new raw (some 8) none))
    ≡ ok (complete raw (some 8) (1 ∷ 65 ∷ []) (66 ∷ 32 ∷ []) answer)
unfolding flatten
finish_after-lines_example =
    finish_after-lines raw (some 8) none records in_three answer tt records-IsRecord refl refl refl

-- A record without its tag.
abbrev torn : List ℕ
torn = bytes_of "'A"

push-resync_example :
    push stdout (torn ++ (10 ∷ lines records)) (new raw (some 8) none)
    ≡ and_then (push stdout (torn ++ (10 ∷ [])) (new raw (some 8) none)) (emit_all records)
push-resync_example = push-resync raw (some 8) none torn records records-IsRecord

abbrev behind_torn : FramedOutput
behind_torn = (push stdout (torn ++ (10 ∷ [])) (new raw (some 8) none)).1

torn-lossy : is_lossy behind_torn.loss ≡ true
unfolding is_lossy push push_segments segments on_segment on_record stream_tag new
torn-lossy = refl

abbrev truncated_stats : CaptureStats
truncated_stats = record empty_stats { truncated = true }

abbrev torn_result : ExecStreamingResult
torn_result = record answer {
  streams_separated = true;
  stdout_capture = truncated_stats;
  stderr_capture = truncated_stats;
  output_loss = record { dropped_frames = 1; dropped_bytes = 3 };
}

finish-torn : (finish answer behind_torn).0 ≡ ok torn_result
unfolding finish keep is_lossy push push_segments segments on_segment on_record stream_tag new
    Sanitize.finish Capture.new Capture.push Capture.push_byte Capture.push_tail Capture.stats
    Capture.to_bytes
finish-torn = refl

finish-Reports_example : Reports torn_result
finish-Reports_example = finish-Reports answer behind_torn torn_result (inl torn-lossy) finish-torn
