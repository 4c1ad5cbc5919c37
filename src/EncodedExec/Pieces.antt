-- ===== src/EncodedExec/Pieces.antt =====
-- Where the encoded output is cut does not matter (encoded_exec.rs).
use mathlib.Core.List.{flatten}
use sandbox_driver.Base.{
  ℕ, ◌+◌, ◌≡◌, refl, sym, ap, ◌∙◌, inl, inr, Bool, true, false, List, [], ◌∷◌, ◌++◌, append_assoc,
  length, length-append, ltb, ◌==◌, Bool-cases, arith,
}
use sandbox_driver.Error.{ok, err}
use sandbox_driver.EncodedExec.{
  stdout, FramedOutput, Outcome, done, and_then, Segment, on_kept, on_segment, glued, segments,
  push_segments, push, max_frame_bytes,
}

pub and_then_assoc :
    (o : Outcome) (g h : FramedOutput → Outcome)
    → and_then (and_then o g) h ≡ and_then o (λ f. and_then (g f) h)
and_then_assoc (ok u, f) g h = refl
and_then_assoc (err e, f) g h = refl

pub and_then-done : (o : Outcome) → and_then o done ≡ o
and_then-done (ok tt, f) = refl
and_then-done (err e, f) = refl

pub and_then-ext :
    (o : Outcome) (g h : FramedOutput → Outcome)
    → ((f : FramedOutput) → g f ≡ h f)
    → and_then o g ≡ and_then o h
and_then-ext (ok u, f) g h e = e f
and_then-ext (err x, f) g h e = refl

on_kept-pending :
    (ended : Bool) (line pending : List ℕ) (f : FramedOutput)
    → on_kept ended line (record f { pending = pending }) ≡ on_kept ended line f
on_kept-pending true line pending f = refl
on_kept-pending false line pending f = refl

-- A segment in two pieces is that segment.
on_segment-pieces :
    (a b : List ℕ) (ended : Bool) (f : FramedOutput)
    → and_then (on_segment (a, false) f) (on_segment (b, ended)) ≡ on_segment (a ++ b, ended) f
unfolding on_segment
on_segment-pieces a b ended f = elim (Bool-cases f.discarding) [
  | inl d ↦
      let n : f.loss.dropped_bytes + length a + length b ≡ f.loss.dropped_bytes + length (a ++ b) =
        omega (arith, length-append a b) in
      rw (d, n) refl
  | inr d ↦ elim (Bool-cases (ltb max_frame_bytes (length f.pending + length a))) [
    | inl o ↦
        let l : ltb max_frame_bytes (length f.pending + length (a ++ b)) ≡ true =
          ground (arith, length-append a b) in
        let n : f.loss.dropped_bytes + (length f.pending + length a) + length b
            ≡ f.loss.dropped_bytes + (length f.pending + length (a ++ b)) =
          omega (arith, length-append a b) in
        rw (d, o, l, n) refl
    | inr o ↦
        let n : length (f.pending ++ a) + length b ≡ length f.pending + length (a ++ b) =
          omega (arith, length-append a b, length-append f.pending a) in
        elim (Bool-cases (ltb max_frame_bytes (length f.pending + length (a ++ b)))) [
          | inl l ↦ rw (d, o, n, l) refl
          | inr l ↦
              rw (d, o, n, l, append_assoc f.pending a b)
                (on_kept-pending ended (f.pending ++ (a ++ b)) (f.pending ++ a)
                  (record f { discarding = false }))
        ]
  ]
]

push_segments-glued :
    (b : ℕ) (rest : List Segment) (f : FramedOutput)
    → push_segments (glued b rest) f ≡ and_then (on_segment (b ∷ [], false) f) (push_segments rest)
unfolding push_segments
push_segments-glued b [] f = refl
push_segments-glued b ((bytes, ended) ∷ rest) f =
    ap (λ o. and_then o (push_segments rest)) (sym (on_segment-pieces (b ∷ []) bytes ended f))
    ∙ and_then_assoc (on_segment (b ∷ [], false) f) (on_segment (bytes, ended)) (push_segments rest)

-- The loop takes its bytes one at a time.
pub push_segments-byte :
    (b : ℕ) (bytes : List ℕ) (f : FramedOutput)
    → push_segments (segments (b ∷ bytes)) f
      ≡ and_then (on_segment (b ∷ [], b == 10) f) (push_segments (segments bytes))
unfolding push_segments segments
push_segments-byte b bytes f = elim (Bool-cases (b == 10)) [
  | inl e ↦ rw e refl
  | inr e ↦ rw e (push_segments-glued b (segments bytes) f)
]

pub push_segments-append :
    (a b : List ℕ) (f : FramedOutput)
    → push_segments (segments (a ++ b)) f
      ≡ and_then (push_segments (segments a) f) (push_segments (segments b))
unfolding push_segments segments
push_segments-append [] b f = refl
push_segments-append (x ∷ a) b f =
    let o = on_segment (x ∷ [], x == 10) f in
    push_segments-byte x (a ++ b) f
    ∙ and_then-ext o (push_segments (segments (a ++ b)))
        (λ g. and_then (push_segments (segments a) g) (push_segments (segments b)))
        (push_segments-append a b)
    ∙ sym (and_then_assoc o (push_segments (segments a)) (push_segments (segments b)))
    ∙ ap (λ o. and_then o (push_segments (segments b))) (sym (push_segments-byte x a f))

-- The calls that deliver a command's encoded output, up to the first that fails.
abbrev pub push_all : List (List ℕ) → FramedOutput → Outcome
push_all [] f = done f
push_all (chunk ∷ chunks) f = and_then (push stdout chunk f) (push_all chunks)

-- However the toolbox cuts the encoded output into chunks, the decoder comes to the same: the same
-- records are emitted, the same loss is counted, and the same call of the sink fails, if one does.
pub push_all-flatten :
    (chunks : List (List ℕ)) (f : FramedOutput) → push_all chunks f ≡ push stdout (flatten chunks) f
unfolding push flatten push_segments segments
push_all-flatten [] f = refl
push_all-flatten (chunk ∷ chunks) f =
    and_then-ext (push_segments (segments chunk) f) (push_all chunks)
      (push_segments (segments (flatten chunks))) (push_all-flatten chunks)
    ∙ sym (push_segments-append chunk (flatten chunks) f)
