-- ===== src/EncodedExec/Finish.antt =====
-- The end of a decoded output: `FramedOutput::finish` (encoded_exec.rs), and the results of exec.rs.
-- Exit codes and signals are only carried.
use sandbox_driver.Base.{
  ℕ, Bool, true, ◌||◌, not, ◌==◌, Option, List, [], ◌∷◌, length, max, if◌then◌else◌,
}
use sandbox_driver.Error.{Termination, limit_exceeded, transport, Result, ok, err}
use sandbox_driver.Capture.{CaptureStats}
use sandbox_driver.Capture
use sandbox_driver.Sanitize
use sandbox_driver.EncodedExec.{
  OutputStream, stdout, stderr, OutputLoss, is_lossy, FramedOutput, Outcome, Stream, and_then,
  discard, keep, stream_at,
}

pub record ExecResult : Type 0 where
  pub stdout : List ℕ
  pub stderr : List ℕ
  pub exit_code : Option ℕ
  pub signal : Option ℕ
  pub termination : Termination
  pub duration : ℕ

pub record ExecStreamingResult : Type 0 where
  pub result : ExecResult
  pub streams_separated : Bool
  pub live_streaming : Bool
  pub stdout_capture : CaptureStats
  pub stderr_capture : CaptureStats
  pub output_loss : OutputLoss

-- A record that the end of the output cut off.
abbrev pub settle_with : List ℕ → FramedOutput → FramedOutput
settle_with [] f = f
settle_with (b ∷ bytes) f = discard (length (b ∷ bytes)) (record f { pending = [] })

abbrev pub settle : FramedOutput → FramedOutput
settle f = settle_with f.pending f

-- A round of the loop over the two streams.
abbrev pub flush : OutputStream → FramedOutput → Outcome
flush stream f = keep stream (Sanitize.finish (stream_at stream f).sanitizer) f

abbrev pub marked : Bool → CaptureStats → CaptureStats
marked truncated s = record s { truncated = s.truncated || truncated }

-- The result behind the loop: a discarded record's stream is unknown, so a loss truncates both.
abbrev pub framed_result : ExecStreamingResult → Stream × Stream → OutputLoss → ExecStreamingResult
framed_result r (out, errors) loss =
    let truncated = r.stdout_capture.truncated || r.stderr_capture.truncated || is_lossy loss in
    record r {
      result = record r.result {
        stdout = Capture.to_bytes out.capture;
        stderr = Capture.to_bytes errors.capture;
      };
      stdout_capture = marked truncated (Capture.stats out.capture);
      stderr_capture = marked truncated (Capture.stats errors.capture);
      output_loss = loss;
      streams_separated = true;
    }

abbrev pub answered : ExecStreamingResult → Outcome → Result ExecStreamingResult × FramedOutput
answered r (ok u, f) = (ok (framed_result r f.streams f.loss), f)
answered r (err e, f) = (err e, f)

unfoldable pub finish :
    ExecStreamingResult → FramedOutput → Result ExecStreamingResult × FramedOutput
finish r f = answered r (and_then (flush stdout (settle f)) (flush stderr))

-- `ExecStreamingResult::into_complete`
unfoldable pub into_complete : ExecStreamingResult → Result ExecResult
into_complete r =
    if r.stdout_capture.truncated || r.stderr_capture.truncated || is_lossy r.output_loss
    then err (transport "command output delivery was incomplete")
    else if not (r.stdout_capture.omitted_bytes == 0) || not (r.stderr_capture.omitted_bytes == 0)
    then err (
        limit_exceeded "retained_output_bytes"
          (max r.stdout_capture.retained_bytes r.stderr_capture.retained_bytes))
    else ok r.result
