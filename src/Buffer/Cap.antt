-- ===== src/Buffer/Cap.antt =====
-- What a bounded buffer collects (buffer.rs).
use mathlib.Core.List.{flatten}
use sandbox_driver.Base.{
  ℕ, ◌-◌, ◌≤◌, ◌≡◌, refl, ap, ◌∙◌, inl, inr, true, false, List, [], ◌∷◌, ◌++◌, append-nil,
  append_assoc, length, length-append, ltb, if◌then◌else◌, Bool-cases, arith,
}
use sandbox_driver.Error.{limit_exceeded, Result, ok, err, ◌>>=◌}
use sandbox_driver.Buffer.{BoundedBuffer, new, poll_write, finish}

-- The writes of a producer, which may go on after a refusal.
abbrev pub write_all : List (List ℕ) → BoundedBuffer → BoundedBuffer
write_all [] b = b
write_all (chunk ∷ chunks) b = write_all chunks (poll_write chunk b).1

abbrev filled : ℕ → List ℕ → BoundedBuffer
filled most bytes = record { bytes = bytes; max_bytes = most; exceeded = false }

poll_write-refused :
    (chunk : List ℕ) (b : BoundedBuffer)
    → ltb (b.max_bytes - length b.bytes) (length chunk) ≡ true
    → (poll_write chunk b).1 ≡ record b { exceeded = true }
unfolding poll_write
poll_write-refused chunk b e = rw e refl

poll_write-accepted :
    (chunk : List ℕ) (b : BoundedBuffer)
    → ltb (b.max_bytes - length b.bytes) (length chunk) ≡ false
    → (poll_write chunk b).1 ≡ record b { bytes = b.bytes ++ chunk }
unfolding poll_write
poll_write-accepted chunk b e = rw e refl

-- A refusal is not forgotten.
finish-exceeded :
    (chunks : List (List ℕ)) (b : BoundedBuffer) (outcome : Result {0} Unit)
    → b.exceeded ≡ true
    → finish (write_all chunks b) outcome ≡ err (limit_exceeded "buffered_value_bytes" b.max_bytes)
unfolding finish
finish-exceeded [] b outcome h = rw h refl
finish-exceeded (chunk ∷ chunks) b outcome h =
    elim (Bool-cases (ltb (b.max_bytes - length b.bytes) (length chunk))) [
      | inl e ↦
          ap (λ c. finish (write_all chunks c) outcome) (poll_write-refused chunk b e)
          ∙ finish-exceeded chunks (record b { exceeded = true }) outcome refl
      | inr e ↦
          ap (λ c. finish (write_all chunks c) outcome) (poll_write-accepted chunk b e)
          ∙ finish-exceeded chunks (record b { bytes = b.bytes ++ chunk }) outcome h
    ]

abbrev pub collected : ℕ → List ℕ → Result {0} Unit → Result (List ℕ)
collected most bytes outcome =
    if ltb most (length bytes)
    then err (limit_exceeded "buffered_value_bytes" most)
    else (outcome >>= (λ done. ok bytes))

finish-filled :
    (chunks : List (List ℕ)) (most : ℕ) (bytes : List ℕ) (outcome : Result {0} Unit)
    → length bytes ≤ most
    → finish (write_all chunks (filled most bytes)) outcome
      ≡ collected most (bytes ++ flatten chunks) outcome
unfolding finish flatten
finish-filled [] most bytes outcome h =
    let f : ltb most (length bytes) ≡ false = ground arith in rw (append-nil bytes, f) refl
finish-filled (chunk ∷ chunks) most bytes outcome h =
    elim (Bool-cases (ltb (most - length bytes) (length chunk))) [
      | inl e ↦
          let f : ltb most (length (bytes ++ (chunk ++ flatten chunks))) ≡ true = ground (
            arith,
            length-append bytes (chunk ++ flatten chunks),
            length-append chunk (flatten chunks),
          ) in
          ap (λ c. finish (write_all chunks c) outcome)
            (poll_write-refused chunk (filled most bytes) e)
          ∙ finish-exceeded chunks (record (filled most bytes) { exceeded = true }) outcome refl
          ∙ rw f refl
      | inr e ↦
          ap (λ c. finish (write_all chunks c) outcome)
            (poll_write-accepted chunk (filled most bytes) e)
          ∙ finish-filled chunks most (bytes ++ chunk) outcome
              (ground (arith, length-append bytes chunk))
          ∙ ap (λ s. collected most s outcome) (append_assoc bytes chunk (flatten chunks))
    ]

-- However the writes are cut, and whether or not the producer stops at a refusal: all that was
-- written comes back where it fits the cap and the producer did not fail; over the cap the limit is
-- reported, whatever the producer made of the refusal.
pub finish-write_all :
    (most : ℕ) (chunks : List (List ℕ)) (outcome : Result {0} Unit)
    → finish (write_all chunks (new most)) outcome ≡ collected most (flatten chunks) outcome
unfolding new
finish-write_all most chunks outcome = finish-filled chunks most [] outcome (omega arith)
