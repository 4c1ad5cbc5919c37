-- ===== src/Control/Lines.antt =====
-- Where the stream is cut does not matter to `read_line` (control.rs).
use mathlib.Core.List.{flatten}
use sandbox_driver.Base.{
  ℕ, ◌+◌, ◌-◌, ◌≤◌, ◌<◌, ◌≡◌, ◌≢◌, refl, sym, ap, ◌∙◌, inl, inr, false, Option, none, some, List,
  [], ◌∷◌, ◌++◌, append_assoc, append-nil, length, length-append, ltb, ltb→lt, ◌==◌, if◌then◌else◌,
  Bool-cases, Option-cases, arith, All,
}
use sandbox_driver.GitBatch.{cut_at, cut_with}
use sandbox_driver.Control.{
  LineRead, closed, incomplete, too_long, line, at_end, consumed, on_buffer, read_line,
}

-- The line of a whole text, and what follows it.
abbrev pub line_in : ℕ → List ℕ → List ℕ → Option (List ℕ × List ℕ) → LineRead (List ℕ)
line_in max_bytes partial text none =
    if ltb (max_bytes - length partial) (length text) then too_long else at_end (partial ++ text)
line_in max_bytes partial text (some (before, after)) =
    if ltb (max_bytes - length partial) (length before + 1)
    then too_long
    else line (partial ++ (before ++ (10 ∷ []))) after

abbrev pub line_of : ℕ → List ℕ → List ℕ → LineRead (List ℕ)
line_of max_bytes text partial = line_in max_bytes partial text (cut_at 10 text)

-- A result whose rest is put together.
abbrev pub whole : LineRead (List (List ℕ)) → LineRead (List ℕ)
whole closed = closed
whole incomplete = incomplete
whole too_long = too_long
whole (line text rest) = line text (flatten rest)

abbrev pub IsFilled : List ℕ → Type 0
IsFilled buffer = buffer ≢ []

abbrev joined : List ℕ → Option (List ℕ × List ℕ) → Option (List ℕ × List ℕ)
joined a none = none
joined a (some (before, after)) = some (a ++ before, after)

abbrev past : List ℕ → Option (List ℕ × List ℕ) → Option (List ℕ × List ℕ)
past b none = none
past b (some (before, after)) = some (before, after ++ b)

cut_at-past :
    (a b : List ℕ) (p : List ℕ × List ℕ)
    → cut_at 10 a ≡ some p
    → cut_at 10 (a ++ b) ≡ past b (some p)
unfolding cut_at
cut_at-past [] b p h = ground arith
cut_at-past (x ∷ a) b p h = elim (Bool-cases (x == 10)) [
  | inl e ↦ rw e (ap (past b) (rw e at h))
  | inr e ↦ elim (Option-cases (cut_at 10 a)) [
    | inl n ↦ absurd (ground arith)
    | inr (q, w) ↦ rw (e, cut_at-past a b q w) (ap (past b) (rw (e, w) at h))
  ]
]

cut_with-joined :
    (x : ℕ) (a : List ℕ) (o : Option (List ℕ × List ℕ)) → cut_with x (joined a o) ≡ joined (x ∷ a) o
cut_with-joined x a none = refl
cut_with-joined x a (some p) = refl

joined-nil : (o : Option (List ℕ × List ℕ)) → o ≡ joined [] o
joined-nil none = refl
joined-nil (some p) = refl

cut_at-joined : (a b : List ℕ) → cut_at 10 a ≡ none → cut_at 10 (a ++ b) ≡ joined a (cut_at 10 b)
unfolding cut_at
cut_at-joined [] b h = joined-nil (cut_at 10 b)
cut_at-joined (x ∷ a) b h = elim (Bool-cases (x == 10)) [
  | inl e ↦ absurd (ground arith)
  | inr e ↦ elim (Option-cases (cut_at 10 a)) [
    | inr (q, w) ↦ absurd (ground arith)
    | inl n ↦ rw (e, cut_at-joined a b n) (cut_with-joined x a (cut_at 10 b))
  ]
]

-- Behind a buffer without a newline that fits, the line goes on.
line_in-more :
    (max_bytes : ℕ) (partial a b : List ℕ) (o : Option (List ℕ × List ℕ))
    → length partial + length a ≤ max_bytes
    → line_in max_bytes (partial ++ a) b o ≡ line_in max_bytes partial (a ++ b) (joined a o)
line_in-more max_bytes partial a b none h =
    let e : ltb (max_bytes - length partial) (length (a ++ b))
        ≡ ltb (max_bytes - length (partial ++ a)) (length b) =
      ground (arith, length-append a b, length-append partial a) in
    rw (e, append_assoc partial a b) refl
line_in-more max_bytes partial a b (some (before, after)) h =
    let e : ltb (max_bytes - length partial) (length (a ++ before) + 1)
        ≡ ltb (max_bytes - length (partial ++ a)) (length before + 1) =
      ground (arith, length-append a before, length-append partial a) in
    rw (e, append_assoc partial a (before ++ (10 ∷ [])), append_assoc a before (10 ∷ [])) refl

line_in-over :
    (max_bytes : ℕ) (partial a b : List ℕ) (o : Option (List ℕ × List ℕ))
    → max_bytes - length partial < length a
    → line_in max_bytes partial (a ++ b) (joined a o) ≡ too_long
line_in-over max_bytes partial a b none h = ground (arith, length-append a b)
line_in-over max_bytes partial a b (some (before, after)) h = ground (arith, length-append a before)

consumed-flatten :
    (after : List ℕ) (buffers : List (List ℕ))
    → flatten (consumed after buffers) ≡ after ++ flatten buffers
unfolding flatten
consumed-flatten [] buffers = refl
consumed-flatten (b ∷ after) buffers = refl

found :
    (max_bytes : ℕ) (again : List ℕ → LineRead (List (List ℕ))) (partial c : List ℕ)
    (buffers : List (List ℕ)) (p : List ℕ × List ℕ)
    → whole (on_buffer again max_bytes partial c buffers (some p))
      ≡ line_in max_bytes partial (c ++ flatten buffers) (past (flatten buffers) (some p))
found max_bytes again partial c buffers (before, after) =
    elim (Bool-cases (ltb (max_bytes - length partial) (length before + 1))) [
      | inl e ↦ rw e refl
      | inr e ↦ rw e (ap (line (partial ++ (before ++ (10 ∷ [])))) (consumed-flatten after buffers))
    ]

whole-at_end : (partial : List ℕ) → whole (at_end partial) ≡ at_end partial
whole-at_end [] = refl
whole-at_end (b ∷ partial) = refl

ended : (max_bytes : ℕ) (partial : List ℕ) → whole (at_end partial) ≡ line_of max_bytes [] partial
unfolding cut_at
ended max_bytes partial =
    let z : ltb (max_bytes - length partial) 0 ≡ false = ground arith in
    rw (z, append-nil partial) (whole-at_end partial)

-- However the stream is cut into buffers, `read_line` returns what the whole text holds: its first
-- line, with what was read before and the newline, and the rest of the text; an error for a line over
-- the limit; and at the end nothing, or an error inside a line. No buffer before the end is empty,
-- and what was read before is within the limit.
pub read_line-line_of :
    (max_bytes : ℕ) (buffers : List (List ℕ)) (partial : List ℕ)
    → All IsFilled buffers
    → length partial ≤ max_bytes
    → whole (read_line max_bytes buffers partial) ≡ line_of max_bytes (flatten buffers) partial
unfolding read_line flatten
read_line-line_of max_bytes [] partial h k = ended max_bytes partial
read_line-line_of max_bytes ([] ∷ buffers) partial h k = absurd (h.0 refl)
read_line-line_of max_bytes ((b ∷ bs) ∷ buffers) partial h k =
    let c = b ∷ bs in
    elim (Option-cases (cut_at 10 c)) [
      | inr (p, w) ↦
          ap (λ o. whole (on_buffer (read_line max_bytes buffers) max_bytes partial c buffers o)) w
          ∙ found max_bytes (read_line max_bytes buffers) partial c buffers p
          ∙ ap (line_in max_bytes partial (c ++ flatten buffers))
              (sym (cut_at-past c (flatten buffers) p w))
      | inl n ↦
          ap (λ o. whole (on_buffer (read_line max_bytes buffers) max_bytes partial c buffers o)) n
          ∙ elim (Bool-cases (ltb (max_bytes - length partial) (length c))) [
            | inl e ↦ rw e (
                sym (
                  line_in-over max_bytes partial c (flatten buffers) (cut_at 10 (flatten buffers))
                    (ltb→lt _ _ e)))
            | inr e ↦ rw e (
                let fits : length partial + length c ≤ max_bytes = ground arith in
                read_line-line_of max_bytes buffers (partial ++ c) h.1
                  (omega (arith, length-append partial c))
                ∙ line_in-more max_bytes partial c (flatten buffers) (cut_at 10 (flatten buffers))
                    fits)
          ]
          ∙ ap (line_in max_bytes partial (c ++ flatten buffers))
              (sym (cut_at-joined c (flatten buffers) n))
    ]
