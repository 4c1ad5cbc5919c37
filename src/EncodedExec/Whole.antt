-- ===== src/EncodedExec/Whole.antt =====
-- An encoded output from the encoder's records to the result (encoded_exec.rs).
use mathlib.Core.List.{flatten}
use sandbox_driver.Base.{ℕ, ◌≡◌, refl, sym, ap, ◌∙◌, true, false, Option, List, [], subst, All}
use sandbox_driver.Error.{Result, ok, err}
use sandbox_driver.Sanitize.{OutputSanitization, sanitize}
use sandbox_driver.Sanitize
use sandbox_driver.Capture.Policy.{kept, stats_for}
use sandbox_driver.EncodedExec.{
  OutputStream, stdout, stderr, no_loss, is_lossy, OutputSink, FramedOutput, Outcome, and_then,
  fresh, new, push,
}
use sandbox_driver.EncodedExec.Finish.{
  ExecStreamingResult, settle_with, flush, framed_result, answered, finish,
}
use sandbox_driver.EncodedExec.Pieces.{push_all, push_all-flatten}
use sandbox_driver.EncodedExec.Records.{Record, IsRecord, lines, push-lines}
use sandbox_driver.EncodedExec.Streams.{
  Accepts, Leaves, put, pick, ended, keep-Leaves, emit_all-Leaves, raws_at, fed_records-raws_at,
  final, to_bytes-final, stats-final,
}

flush-Leaves :
    (s : OutputStream) (f : FramedOutput)
    → Accepts f.sink
    → Leaves (flush s f) (put s (ended (pick s f.streams)) f.streams) f
flush-Leaves stdout f h = keep-Leaves stdout (Sanitize.finish f.streams.0.sanitizer) f h
flush-Leaves stderr f h = keep-Leaves stderr (Sanitize.finish f.streams.1.sanitizer) f h

-- What `finish` answers where nothing is pending.
finish-settled :
    (r : ExecStreamingResult) (f : FramedOutput)
    → f.pending ≡ []
    → Accepts f.sink
    → (finish r f).0 ≡ ok (framed_result r (ended f.streams.0, ended f.streams.1) f.loss)
unfolding finish
finish-settled r f p h =
    let (g, o, s, l, q, k) = flush-Leaves stdout f h in
    let (g', o', s', l', q', k') = flush-Leaves stderr g (subst Accepts (sym k) h) in
    ap (λ x. (answered r (and_then (flush stdout (settle_with x f)) (flush stderr))).0) p
    ∙ ap (λ x. (answered r (and_then x (flush stderr))).0) o
    ∙ ap (λ x. (answered r x).0) o'
    ∙ ap (λ x. ok (framed_result r g'.streams x)) (l' ∙ l)
    ∙ ap (λ x. ok (framed_result r x f.loss)) (s' ∙ ap (λ x. (x.0, ended x.1)) s)

-- The outcome of the calls, then of `finish`, as `run` chains them.
abbrev pub finish_after : ExecStreamingResult → Outcome → Result ExecStreamingResult
finish_after r (ok u, f) = (finish r f).0
finish_after r (err e, f) = err e

-- The result of a command whose output is complete.
abbrev pub complete :
    OutputSanitization → Option ℕ → List ℕ → List ℕ → ExecStreamingResult → ExecStreamingResult
complete policy limit out errors r = record r {
  result = record r.result {
    stdout = kept limit (sanitize policy out);
    stderr = kept limit (sanitize policy errors);
  };
  stdout_capture = stats_for limit (sanitize policy out);
  stderr_capture = stats_for limit (sanitize policy errors);
  output_loss = no_loss;
  streams_separated = true;
}

module _ (policy : OutputSanitization) (limit : Option ℕ) (sink : Option OutputSink) where
  framed_result-complete :
      (out errors : List (List ℕ)) (r : ExecStreamingResult)
      → r.stdout_capture.truncated ≡ false
      → r.stderr_capture.truncated ≡ false
      → framed_result r (final policy limit out, final policy limit errors) no_loss
        ≡ complete policy limit (flatten out) (flatten errors) r
  unfolding is_lossy
  framed_result-complete out errors r a b =
      rw
        (
          a,
          b,
          to_bytes-final policy limit out,
          to_bytes-final policy limit errors,
          stats-final policy limit out,
          stats-final policy limit errors,
        )
        refl

  -- Where the toolbox delivers the encoder's records, in any chunks, and the sink takes what it is
  -- given: the result holds what the policy keeps of each stream's own bytes, sanitized as a whole,
  -- with their accounting, and no loss; the transport has truncated nothing.
  pub finish_after-lines :
      (records : List Record) (chunks : List (List ℕ)) (r : ExecStreamingResult)
      → Accepts sink
      → All IsRecord records
      → flatten chunks ≡ lines records
      → r.stdout_capture.truncated ≡ false
      → r.stderr_capture.truncated ≡ false
      → finish_after r (push_all chunks (new policy limit sink))
        ≡ ok (
            complete policy limit
              (flatten (raws_at stdout records))
              (flatten (raws_at stderr records))
              r)
  unfolding new
  finish_after-lines records chunks r h i e a b =
      let f = new policy limit sink in
      let out = raws_at stdout records in
      let errors = raws_at stderr records in
      let (g, o, s, l, p, k) = emit_all-Leaves records f h in
      ap (finish_after r) (
        push_all-flatten chunks f
        ∙ ap (λ x. push stdout x f) e
        ∙ push-lines records f i (refl, refl)
        ∙ o)
      ∙ finish-settled r g p (subst Accepts (sym k) h)
      ∙ ap (λ x. ok (framed_result r (ended x.0, ended x.1) g.loss))
          (s ∙ fed_records-raws_at records (fresh policy limit) (fresh policy limit))
      ∙ ap (λ x. ok (framed_result r (final policy limit out, final policy limit errors) x)) l
      ∙ ap ok (framed_result-complete out errors r a b)
