-- ===== src/EncodedExec/Streams.antt =====
-- What the streams hold behind the records (encoded_exec.rs).
use mathlib.Core.List.{flatten}
use sandbox_driver.Base.{
  ℕ, ◌≡◌, refl, sym, ap, ◌∙◌, Option, none, some, List, [], ◌∷◌, ◌++◌, subst, append-nil,
}
use sandbox_driver.Error.{ok}
use sandbox_driver.Sanitize.{OutputSanitization, OutputSanitizer, sanitize, stream}
use sandbox_driver.Sanitize
use sandbox_driver.Sanitize.Chunks.{stream-eq-sanitize}
use sandbox_driver.Capture.{OutputCaptureBuffer, CaptureStats, to_bytes, stats, cap_of}
use sandbox_driver.Capture
use sandbox_driver.Capture.Policy.{push_all, kept, stats_for, to_bytes-kept, stats-push_all}
use sandbox_driver.EncodedExec.{
  OutputStream, stdout, stderr, Stream, OutputSink, FramedOutput, Outcome, done, and_then, fresh,
  deliver_to, keep, emit, Delivered,
}
use sandbox_driver.EncodedExec.Records.{Record, emit_all}

-- The sink takes all that it is given.
abbrev pub Accepts : Option OutputSink → Type 0
Accepts none = Unit
Accepts (some sink) =
    (before : Delivered) (s : OutputStream) (bytes : List ℕ) → sink before s bytes ≡ ok tt

-- A stream behind more raw bytes.
abbrev pub fed : List ℕ → Stream → Stream
fed raw s = record {
  sanitizer = (Sanitize.push s.sanitizer raw).0;
  capture = Capture.push (Sanitize.push s.sanitizer raw).1 s.capture;
}

abbrev pub fed_all : List (List ℕ) → Stream → Stream
fed_all [] s = s
fed_all (raw ∷ raws) s = fed_all raws (fed raw s)

abbrev pub put : OutputStream → Stream → Stream × Stream → Stream × Stream
put stdout s (out, errors) = (s, errors)
put stderr s (out, errors) = (out, s)

abbrev pub pick : OutputStream → Stream × Stream → Stream
pick stdout (out, errors) = out
pick stderr (out, errors) = errors

abbrev pub fed_records : List Record → Stream × Stream → Stream × Stream
fed_records [] streams = streams
fed_records (r ∷ records) streams =
    fed_records records (put r.stream (fed r.raw (pick r.stream streams)) streams)

-- An outcome without an error, that has these streams and is otherwise as `f`.
abbrev pub Leaves : Outcome → Stream × Stream → FramedOutput → Type 0
Leaves o streams f =
    (g : FramedOutput) × (o ≡ done g)
    × (g.streams ≡ streams)
    × (g.loss ≡ f.loss)
    × (g.pending ≡ f.pending)
    × (g.sink ≡ f.sink)

deliver_to-Leaves :
    (sink : Option OutputSink) (s : OutputStream) (bytes : List ℕ) (f : FramedOutput)
    → Accepts sink
    → Leaves (deliver_to sink s bytes f) f.streams f
deliver_to-Leaves none s bytes f h = (f, refl, refl, refl, refl, refl)
deliver_to-Leaves (some sink) s [] f h = (f, refl, refl, refl, refl, refl)
deliver_to-Leaves (some sink) s (b ∷ bytes) f h = (
  record f { delivered = f.delivered ++ ((s, b ∷ bytes) ∷ []) },
  ap (λ r. (r, record f { delivered = f.delivered ++ ((s, b ∷ bytes) ∷ []) }))
      (h f.delivered s (b ∷ bytes)),
  refl,
  refl,
  refl,
  refl,
)

abbrev pub kept_stream : OutputSanitizer × List ℕ → Stream → Stream
kept_stream p s = record { sanitizer = p.0; capture = Capture.push p.1 s.capture }

pub keep-Leaves :
    (s : OutputStream) (p : OutputSanitizer × List ℕ) (f : FramedOutput)
    → Accepts f.sink
    → Leaves (keep s p f) (put s (kept_stream p (pick s f.streams)) f.streams) f
unfolding keep
keep-Leaves stdout p f h =
    deliver_to-Leaves f.sink stdout p.1
      (record f { streams = (kept_stream p f.streams.0, f.streams.1) }) h
keep-Leaves stderr p f h =
    deliver_to-Leaves f.sink stderr p.1
      (record f { streams = (f.streams.0, kept_stream p f.streams.1) }) h

emit-Leaves :
    (s : OutputStream) (raw : List ℕ) (f : FramedOutput)
    → Accepts f.sink
    → Leaves (emit s raw f) (put s (fed raw (pick s f.streams)) f.streams) f
unfolding emit
emit-Leaves stdout raw f h = keep-Leaves stdout (Sanitize.push f.streams.0.sanitizer raw) f h
emit-Leaves stderr raw f h = keep-Leaves stderr (Sanitize.push f.streams.1.sanitizer raw) f h

pub emit_all-Leaves :
    (records : List Record) (f : FramedOutput)
    → Accepts f.sink
    → Leaves (emit_all records f) (fed_records records f.streams) f
emit_all-Leaves [] f h = (f, refl, refl, refl, refl, refl)
emit_all-Leaves (r ∷ records) f h =
    let (g, o, s, l, p, k) = emit-Leaves r.stream r.raw f h in
    let (g', o', s', l', p', k') = emit_all-Leaves records g (subst Accepts (sym k) h) in
    (
      g',
      ap (λ x. and_then x (emit_all records)) o ∙ o',
      s' ∙ ap (fed_records records) s,
      l' ∙ l,
      p' ∙ p,
      k' ∙ k,
    )

-- The bytes of a stream's records.
abbrev pub taken : OutputStream → OutputStream → List ℕ → List (List ℕ) → List (List ℕ)
taken stdout stdout raw rest = raw ∷ rest
taken stderr stderr raw rest = raw ∷ rest
taken _ _ raw rest = rest

abbrev pub raws_at : OutputStream → List Record → List (List ℕ)
raws_at s [] = []
raws_at s (r ∷ records) = taken s r.stream r.raw (raws_at s records)

-- What the records come to, from any two streams.
abbrev Separates : List Record → Type 0
Separates records =
    (out errors : Stream)
    → fed_records records (out, errors)
      ≡ (fed_all (raws_at stdout records) out, fed_all (raws_at stderr records) errors)

Separates-more :
    (s : OutputStream) (body raw : List ℕ) (records : List Record)
    → Separates records
    → Separates (record { stream = s; body = body; raw = raw } ∷ records)
Separates-more stdout body raw records h out errors = h (fed raw out) errors
Separates-more stderr body raw records h out errors = h out (fed raw errors)

pub fed_records-raws_at : (records : List Record) → Separates records
fed_records-raws_at [] out errors = refl
fed_records-raws_at (r ∷ records) out errors =
    Separates-more r.stream r.body r.raw records (fed_records-raws_at records) out errors

-- The end of a stream.
abbrev pub ended : Stream → Stream
ended s = kept_stream (Sanitize.finish s.sanitizer) s

abbrev outputs : OutputSanitizer → List (List ℕ) → List (List ℕ)
outputs s [] = (Sanitize.finish s).1 ∷ []
outputs s (raw ∷ raws) = (Sanitize.push s raw).1 ∷ outputs (Sanitize.push s raw).0 raws

flatten-outputs :
    (s : OutputSanitizer) (raws : List (List ℕ)) → flatten (outputs s raws) ≡ stream s raws
unfolding flatten stream
flatten-outputs s [] = append-nil (Sanitize.finish s).1
flatten-outputs s (raw ∷ raws) =
    ap (◌++◌ (Sanitize.push s raw).1) (flatten-outputs (Sanitize.push s raw).0 raws)

capture-ended :
    (raws : List (List ℕ)) (s : Stream)
    → (ended (fed_all raws s)).capture ≡ push_all (outputs s.sanitizer raws) s.capture
capture-ended [] s = refl
capture-ended (raw ∷ raws) s = capture-ended raws (fed raw s)

module _ (policy : OutputSanitization) (limit : Option ℕ) (raws : List (List ℕ)) where
  abbrev pub final : Stream
  final = ended (fed_all raws (fresh policy limit))

  final-outputs : final.capture ≡ push_all (outputs (Sanitize.new policy) raws) (Capture.new limit)
  final-outputs = capture-ended raws (fresh policy limit)

  clean : flatten (outputs (Sanitize.new policy) raws) ≡ sanitize policy (flatten raws)
  clean = flatten-outputs (Sanitize.new policy) raws ∙ stream-eq-sanitize policy raws

  pub to_bytes-final : to_bytes final.capture ≡ kept limit (sanitize policy (flatten raws))
  to_bytes-final =
      ap to_bytes final-outputs
      ∙ to_bytes-kept limit (outputs (Sanitize.new policy) raws)
      ∙ ap (kept limit) clean

  pub stats-final : stats final.capture ≡ stats_for limit (sanitize policy (flatten raws))
  stats-final =
      ap stats final-outputs
      ∙ stats-push_all limit (outputs (Sanitize.new policy) raws)
      ∙ ap (stats_for limit) clean
