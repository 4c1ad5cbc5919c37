-- ===== src/EncodedExec/Loss.antt =====
-- A loss is never hidden (encoded_exec.rs).
use sandbox_driver.Base.{
  ℕ, ◌≡◌, ◌≢◌, ◌⊎◌, subst, length, refl, ap, ◌∙◌, inl, inr, Bool, true, ◌||◌, Option, none, some,
  List, [], ◌∷◌, arith,
}
use sandbox_driver.Error.{transport, ok, err, ok_injective}
use sandbox_driver.Sanitize.{OutputSanitizer}
use sandbox_driver.Sanitize
use sandbox_driver.Capture.{stats}
use sandbox_driver.EncodedExec.{
  OutputStream, stdout, stderr, Stream, OutputLoss, is_lossy, OutputSink, FramedOutput, Outcome,
  and_then, deliver_to, discard, keep, stream_at,
}
use sandbox_driver.EncodedExec.Finish.{
  ExecStreamingResult, settle, settle_with, flush, framed_result, answered, finish, into_complete,
}

deliver_to-loss :
    (sink : Option OutputSink) (s : OutputStream) (bytes : List ℕ) (f : FramedOutput)
    → (deliver_to sink s bytes f).1.loss ≡ f.loss
deliver_to-loss none s bytes f = refl
deliver_to-loss (some sink) s [] f = refl
deliver_to-loss (some sink) s (b ∷ bytes) f = refl

keep-loss :
    (s : OutputStream) (p : OutputSanitizer × List ℕ) (f : FramedOutput)
    → (keep s p f).1.loss ≡ f.loss
unfolding keep
keep-loss stdout p f = deliver_to-loss f.sink stdout p.1 _
keep-loss stderr p f = deliver_to-loss f.sink stderr p.1 _

and_then-loss :
    (o : Outcome) (g : FramedOutput → Outcome)
    → ((f : FramedOutput) → (g f).1.loss ≡ f.loss)
    → (and_then o g).1.loss ≡ o.1.loss
and_then-loss (ok u, f) g h = h f
and_then-loss (err e, f) g h = refl

flushed-loss :
    (f : FramedOutput)
    → (and_then (flush stdout (settle f)) (flush stderr)).1.loss ≡ (settle f).loss
flushed-loss f =
    and_then-loss (flush stdout (settle f)) (flush stderr)
      (λ g. keep-loss stderr (Sanitize.finish (stream_at stderr g).sanitizer) g)
    ∙ keep-loss stdout (Sanitize.finish (stream_at stdout (settle f)).sanitizer) (settle f)

-- A result in which the loss shows.
abbrev pub Reports : ExecStreamingResult → Type 0
Reports r =
    (r.stdout_capture.truncated ≡ true)
    × (r.stderr_capture.truncated ≡ true)
    × (into_complete r ≡ err (transport "command output delivery was incomplete"))

or_true : (a b : Bool) → b ≡ true → (a || b) ≡ true
or_true a b h = ground arith

or_last : (a b c : Bool) → c ≡ true → (a || b || c) ≡ true
or_last a b c h = ground arith

framed_result-Reports :
    (r : ExecStreamingResult) (streams : Stream × Stream) (loss : OutputLoss)
    → is_lossy loss ≡ true
    → Reports (framed_result r streams loss)
unfolding into_complete
framed_result-Reports r streams loss h =
    let t = or_last r.stdout_capture.truncated r.stderr_capture.truncated (is_lossy loss) h in
    let a = or_true (stats streams.0.capture).truncated _ t in
    let b = or_true (stats streams.1.capture).truncated _ t in (a, b, rw a refl)

answered-Reports :
    (r : ExecStreamingResult) (o : Outcome) (result : ExecStreamingResult)
    → is_lossy o.1.loss ≡ true
    → (answered r o).0 ≡ ok result
    → Reports result
answered-Reports r (ok u, f) result h e =
    subst Reports (ok_injective e) (framed_result-Reports r f.streams f.loss h)
answered-Reports r (err x, f) result h e = absurd (ground arith)

discarded : (bytes : ℕ) (f : FramedOutput) → is_lossy (discard bytes f).loss ≡ true
unfolding is_lossy
discarded bytes f = ground arith

settled :
    (pending : List ℕ) (f : FramedOutput)
    → (is_lossy f.loss ≡ true) ⊎ (pending ≢ [])
    → is_lossy (settle_with pending f).loss ≡ true
settled [] f (inl h) = h
settled [] f (inr h) = absurd (h refl)
settled (b ∷ bytes) f h = discarded (length (b ∷ bytes)) (record f { pending = [] })

-- Where a record was discarded, or the output ended inside one, a result that `finish` returns marks
-- both captures as truncated, and it does not pass for a complete one.
pub finish-Reports :
    (r : ExecStreamingResult) (f : FramedOutput) (result : ExecStreamingResult)
    → (is_lossy f.loss ≡ true) ⊎ (f.pending ≢ [])
    → (finish r f).0 ≡ ok result
    → Reports result
unfolding finish
finish-Reports r f result h e =
    answered-Reports r (and_then (flush stdout (settle f)) (flush stderr)) result
      (ap is_lossy (flushed-loss f) ∙ settled f.pending f h) e
