-- ===== src/EncodedExec/Records.antt =====
-- The records that the encoder writes (encoded_exec.rs).
use sandbox_driver.Base.{
  ℕ, suc, ◌+◌, ◌-◌, ◌≤◌, ◌≡◌, refl, sym, ap, ◌∙◌, true, false, Option, none, some, List, [], ◌∷◌,
  ◌++◌, length, length-append, take, drop, take-length-append, ltb, ◌==◌, All, arith,
}
use sandbox_driver.Error.{ok, err}
use sandbox_driver.GitBatch.Fields.{Without}
use sandbox_driver.Quoted.{decoded, decode_quoted}
use sandbox_driver.EncodedExec.{
  OutputStream, stdout, stderr, OutputSink, FramedOutput, Outcome, done, and_then, deliver_to, keep,
  emit, stream_tag, on_record, on_segment, segments, push_segments, push, max_frame_bytes,
}
use sandbox_driver.EncodedExec.Pieces.{and_then-done, push_segments-append}

-- A record: its stream, its quoted body, and the bytes that it stands for.
pub record Record : Type 0 where
  pub stream : OutputStream
  pub body : List ℕ
  pub raw : List ℕ

abbrev pub tag : OutputStream → ℕ
tag stdout = b'O'
tag stderr = b'E'

abbrev pub line : Record → List ℕ
line r = tag r.stream ∷ (r.body ++ (b'\n' ∷ []))

-- A record of the encoder: on a line of its own, short enough, and readable.
abbrev pub IsRecord : Record → Type 0
IsRecord r =
    Without 10 r.body × (length (line r) ≤ max_frame_bytes) × (decode_quoted r.body ≡ decoded r.raw)

abbrev pub lines : List Record → List ℕ
lines [] = []
lines (r ∷ records) = line r ++ lines records

-- Nothing is pending.
abbrev pub IsIdle : FramedOutput → Type 0
IsIdle f = (f.pending ≡ []) × (f.discarding ≡ false)

segments-line :
    (text : List ℕ)
    → Without 10 text
    → segments (text ++ (10 ∷ [])) ≡ (text ++ (10 ∷ []), true) ∷ []
unfolding segments
segments-line [] h = refl
segments-line (b ∷ text) (p, h) = rw (p, segments-line text h) refl

stream_tag-tag : (s : OutputStream) → stream_tag (tag s) ≡ some s
unfolding stream_tag
stream_tag-tag stdout = refl
stream_tag-tag stderr = refl

tag-Without : (s : OutputStream) → (tag s == 10) ≡ false
tag-Without stdout = refl
tag-Without stderr = refl

body-line :
    (t : ℕ) (body : List ℕ)
    → drop 1 (take (length (t ∷ (body ++ (10 ∷ []))) - 1) (t ∷ (body ++ (10 ∷ [])))) ≡ body
body-line t body =
    let n : length (t ∷ (body ++ (10 ∷ []))) - 1 ≡ suc (length body) =
      omega (arith, length-append body (10 ∷ [])) in
    rw (n, take-length-append body (10 ∷ [])) refl

on_record-line :
    (r : Record) (f : FramedOutput) → IsRecord r → on_record (line r) f ≡ emit r.stream r.raw f
unfolding on_record
on_record-line r f (n, fits, d) =
    rw (tag-Without r.stream, stream_tag-tag r.stream, body-line (tag r.stream) r.body, d) refl

abbrev reset : FramedOutput → FramedOutput
reset f = record f { pending = []; discarding = false }

idle_eq : (f : FramedOutput) → IsIdle f → reset f ≡ f
idle_eq f (p, d) =
    ap (λ x. record f { pending = x; discarding = false }) (sym p)
    ∙ ap (λ x. record f { discarding = x }) (sym d)

on_segment-reset :
    (text : List ℕ) (f : FramedOutput)
    → length text ≤ max_frame_bytes
    → on_segment (text, true) (reset f) ≡ on_record text (reset f)
unfolding on_segment
on_segment-reset text f h =
    let o : ltb max_frame_bytes (length text) ≡ false = ground arith in
    let z : 0 + length text ≡ length text = omega arith in rw (z, o) refl

pub on_segment-idle :
    (text : List ℕ) (f : FramedOutput)
    → IsIdle f
    → length text ≤ max_frame_bytes
    → on_segment (text, true) f ≡ on_record text f
on_segment-idle text f (p, d) h =
    let e = idle_eq f (p, d) in
    ap (on_segment (text, true)) (sym e) ∙ on_segment-reset text f h ∙ ap (on_record text) e

-- Two continuations that agree where a property holds that the outcome has.
pub and_then-along :
    (P : FramedOutput → Type 0) (o : Outcome) (g h : FramedOutput → Outcome)
    → P o.1
    → ((f : FramedOutput) → P f → g f ≡ h f)
    → and_then o g ≡ and_then o h
and_then-along P (ok u, f) g h p e = e f p
and_then-along P (err x, f) g h p e = refl

deliver_to-IsIdle :
    (sink : Option OutputSink) (s : OutputStream) (bytes : List ℕ) (f : FramedOutput)
    → IsIdle f
    → IsIdle (deliver_to sink s bytes f).1
deliver_to-IsIdle none s bytes f h = h
deliver_to-IsIdle (some sink) s [] f h = h
deliver_to-IsIdle (some sink) s (b ∷ bytes) f h = h

pub emit-IsIdle :
    (s : OutputStream) (raw : List ℕ) (f : FramedOutput) → IsIdle f → IsIdle (emit s raw f).1
unfolding emit keep
emit-IsIdle stdout raw f h = deliver_to-IsIdle f.sink stdout _ _ h
emit-IsIdle stderr raw f h = deliver_to-IsIdle f.sink stderr _ _ h

abbrev pub emit_all : List Record → FramedOutput → Outcome
emit_all [] f = done f
emit_all (r ∷ records) f = and_then (emit r.stream r.raw f) (emit_all records)

push_segments-line :
    (r : Record) (f : FramedOutput)
    → IsRecord r
    → IsIdle f
    → push_segments (segments (line r)) f ≡ emit r.stream r.raw f
unfolding push_segments
push_segments-line r f (n, fits, d) i =
    ap (λ s. push_segments s f) (segments-line (tag r.stream ∷ r.body) (tag-Without r.stream, n))
    ∙ and_then-done (on_segment (line r, true) f)
    ∙ on_segment-idle (line r) f i fits
    ∙ on_record-line r f (n, fits, d)

-- An idle decoder emits the bytes of the encoder's records, in order.
pub push-lines :
    (records : List Record) (f : FramedOutput)
    → All IsRecord records
    → IsIdle f
    → push stdout (lines records) f ≡ emit_all records f
unfolding push push_segments segments
push-lines [] f h i = refl
push-lines (r ∷ records) f (p, h) i =
    push_segments-append (line r) (lines records) f
    ∙ ap (λ o. and_then o (push_segments (segments (lines records)))) (push_segments-line r f p i)
    ∙ and_then-along IsIdle (emit r.stream r.raw f) (push_segments (segments (lines records)))
        (emit_all records) (emit-IsIdle r.stream r.raw f i) (λ g k. push-lines records g h k)
