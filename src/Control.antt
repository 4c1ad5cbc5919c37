-- ===== src/Control.antt =====
-- crates/sandbox-driver-protocol/src/control.rs: `read_line`, the bounded reader of control messages.
-- The stream is the list of the buffers that `fill_buf` gives; an empty one is its end. A failing
-- `fill_buf`, which the source passes on, is left out.
pub mod Lines
pub mod Tests
use sandbox_driver.Base.{
  ℕ, ◌+◌, ◌-◌, Bool, true, false, Option, none, some, List, [], ◌∷◌, ◌++◌, length, ltb,
  if◌then◌else◌,
}
use sandbox_driver.GitBatch.{cut_at}

-- What a call comes to: the stream's end, a line with what the stream has left, the end inside a
-- line, or a line over the limit.
pub data LineRead (S : Type 0) : Type 0 where
  closed incomplete too_long : LineRead S
  line : List ℕ → S → LineRead S

abbrev pub at_end : {S : Type 0} → List ℕ → LineRead S
at_end [] = closed
at_end (b ∷ partial) = incomplete

-- `consume`: a buffer that is used up is gone.
abbrev pub consumed : List ℕ → List (List ℕ) → List (List ℕ)
consumed [] buffers = buffers
consumed (b ∷ after) buffers = (b ∷ after) ∷ buffers

-- A round of the loop on a buffer that is not empty; `again` is the loop on the buffers behind it.
abbrev pub on_buffer :
    (List ℕ → LineRead (List (List ℕ)))
    → ℕ
    → List ℕ
    → List ℕ
    → List (List ℕ)
    → Option (List ℕ × List ℕ)
    → LineRead (List (List ℕ))
on_buffer again max_bytes partial available buffers none =
    if ltb (max_bytes - length partial) (length available)
    then too_long
    else again (partial ++ available)
on_buffer again max_bytes partial available buffers (some (before, after)) =
    if ltb (max_bytes - length partial) (length before + 1)
    then too_long
    else line (partial ++ (before ++ (b'\n' ∷ []))) (consumed after buffers)

unfoldable pub read_line : ℕ → List (List ℕ) → List ℕ → LineRead (List (List ℕ))
read_line max_bytes [] partial = at_end partial
read_line max_bytes ([] ∷ buffers) partial = at_end partial
read_line max_bytes ((b ∷ available) ∷ buffers) partial =
    on_buffer (read_line max_bytes buffers) max_bytes partial (b ∷ available) buffers
      (cut_at b'\n' (b ∷ available))
