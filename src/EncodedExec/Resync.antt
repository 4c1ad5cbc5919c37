-- ===== src/EncodedExec/Resync.antt =====
-- Behind a torn record the decoder is in step again at the next newline (encoded_exec.rs).
use sandbox_driver.Base.{
  ℕ, ◌+◌, ◌≡◌, refl, sym, ap, ◌∙◌, subst, inl, inr, Bool, true, false, Option, none, some, List, [],
  ◌∷◌, ◌++◌, append_assoc, length, ltb, ◌==◌, Bool-cases, All, arith, drop, take, ◌-◌,
}
use sandbox_driver.Error.{ok, err}
use sandbox_driver.GitBatch.{texts_equal}
use sandbox_driver.Quoted.{StdResult, decoded, fault, decode_quoted}
use sandbox_driver.EncodedExec.{
  OutputStream, stdout, FramedOutput, Outcome, and_then, tag_of, on_decoded, on_record, on_segment,
  segments, push_segments, push, emit, max_frame_bytes, new, OutputSink,
}
use sandbox_driver.Sanitize.{OutputSanitization}
use sandbox_driver.EncodedExec.Pieces.{and_then-done, push_segments-byte, push_segments-append}
use sandbox_driver.EncodedExec.Records.{
  Record, IsRecord, IsIdle, emit-IsIdle, lines, emit_all, push-lines,
}

-- Nothing is pending while bytes are discarded.
abbrev pub IsSound : FramedOutput → Type 0
IsSound f = f.discarding ≡ true → f.pending ≡ []

-- A property of the state, where the outcome has no error.
abbrev pub Then : (FramedOutput → Type 0) → Outcome → Type 0
Then P (ok u, f) = P f
Then P (err e, f) = Unit

Then-of : (P : FramedOutput → Type 0) (o : Outcome) → P o.1 → Then P o
Then-of P (ok u, f) p = p
Then-of P (err e, f) p = tt

Then-and_then :
    (P Q : FramedOutput → Type 0) (o : Outcome) (g : FramedOutput → Outcome)
    → Then P o
    → ((f : FramedOutput) → P f → Then Q (g f))
    → Then Q (and_then o g)
Then-and_then P Q (ok u, f) g p h = h f p
Then-and_then P Q (err e, f) g p h = tt

and_then-Then :
    (P : FramedOutput → Type 0) (o : Outcome) (g h : FramedOutput → Outcome)
    → Then P o
    → ((f : FramedOutput) → P f → g f ≡ h f)
    → and_then o g ≡ and_then o h
and_then-Then P (ok u, f) g h p e = e f p
and_then-Then P (err x, f) g h p e = refl

on_decoded-IsIdle :
    (s : Option OutputStream) (body : StdResult (List ℕ)) (bytes : ℕ) (f : FramedOutput)
    → IsIdle f
    → Then IsIdle (on_decoded s body bytes f)
on_decoded-IsIdle none body bytes f h = h
on_decoded-IsIdle (some s) (fault reason) bytes f h = h
on_decoded-IsIdle (some s) (decoded raw) bytes f h =
    Then-of IsIdle (emit s raw f) (emit-IsIdle s raw f h)

on_record-IsIdle : (text : List ℕ) (f : FramedOutput) → IsIdle f → Then IsIdle (on_record text f)
unfolding on_record
on_record-IsIdle text f h = elim (Bool-cases (texts_equal text (10 ∷ []))) [
  | inl e ↦ rw e h
  | inr e ↦ rw e (
      on_decoded-IsIdle (tag_of text) (decode_quoted (drop 1 (take (length text - 1) text)))
        (length text) f h)
]

-- A newline brings any sound state in step.
on_segment-ended :
    (text : List ℕ) (f : FramedOutput) → IsSound f → Then IsIdle (on_segment (text, true) f)
unfolding on_segment
on_segment-ended text f h = elim (Bool-cases f.discarding) [
  | inl d ↦ rw d (h d, refl)
  | inr d ↦ elim (Bool-cases (ltb max_frame_bytes (length f.pending + length text))) [
    | inl o ↦ rw (d, o) (refl, refl)
    | inr o ↦
        rw (d, o)
          (on_record-IsIdle (f.pending ++ text) (record f { pending = []; discarding = false })
            (refl, refl))
  ]
]

Then-mono :
    (P Q : FramedOutput → Type 0) (o : Outcome)
    → ((f : FramedOutput) → P f → Q f)
    → Then P o
    → Then Q o
Then-mono P Q (ok u, f) h p = h f p
Then-mono P Q (err e, f) h p = tt

on_segment-IsSound :
    (text : List ℕ) (ended : Bool) (f : FramedOutput)
    → IsSound f
    → Then IsSound (on_segment (text, ended) f)
unfolding on_segment
on_segment-IsSound text true f h =
    Then-mono IsIdle IsSound (on_segment (text, true) f) (λ g i d. i.0) (on_segment-ended text f h)
on_segment-IsSound text false f h = elim (Bool-cases f.discarding) [
  | inl d ↦ rw d (λ e. h d)
  | inr d ↦ elim (Bool-cases (ltb max_frame_bytes (length f.pending + length text))) [
    | inl o ↦ rw (d, o) (λ e. refl)
    | inr o ↦ rw (d, o) (λ (e : false ≡ true). absurd (ground arith))
  ]
]

push_segments-IsSound :
    (bytes : List ℕ) (f : FramedOutput)
    → IsSound f
    → Then IsSound (push_segments (segments bytes) f)
unfolding push_segments segments
push_segments-IsSound [] f h = h
push_segments-IsSound (b ∷ bytes) f h = subst (Then IsSound) (sym (push_segments-byte b bytes f)) (
    Then-and_then IsSound IsSound (on_segment (b ∷ [], b == 10) f) (push_segments (segments bytes))
      (on_segment-IsSound (b ∷ []) (b == 10) f h) (push_segments-IsSound bytes))

push-IsIdle :
    (torn : List ℕ) (f : FramedOutput) → IsSound f → Then IsIdle (push stdout (torn ++ (10 ∷ [])) f)
unfolding push push_segments segments
push-IsIdle torn f h = subst (Then IsIdle) (sym (push_segments-append torn (10 ∷ []) f)) (
    Then-and_then IsSound IsIdle (push_segments (segments torn) f)
      (push_segments (segments (10 ∷ []))) (push_segments-IsSound torn f h)
      (λ g i.
        subst (Then IsIdle) (sym (and_then-done (on_segment (10 ∷ [], true) g)))
          (on_segment-ended (10 ∷ []) g i)))

-- Whatever bytes came before, torn records or not: from the next newline on the encoder's records are
-- all emitted, in order and with their own bytes, unless the sink failed before.
pub push-resync :
    (policy : OutputSanitization) (limit : Option ℕ) (sink : Option OutputSink) (torn : List ℕ)
    (records : List Record)
    → All IsRecord records
    → push stdout (torn ++ (10 ∷ lines records)) (new policy limit sink)
      ≡ and_then (push stdout (torn ++ (10 ∷ [])) (new policy limit sink)) (emit_all records)
unfolding push new
push-resync policy limit sink torn records h =
    let f = new policy limit sink in
    ap (λ x. push stdout x f) (sym (append_assoc torn (10 ∷ []) (lines records)))
    ∙ push_segments-append (torn ++ (10 ∷ [])) (lines records) f
    ∙ and_then-Then IsIdle (push stdout (torn ++ (10 ∷ [])) f)
        (push_segments (segments (lines records))) (emit_all records)
        (push-IsIdle torn f (λ d. refl)) (λ g i. push-lines records g h i)
