-- ===== src/Capture/Tests.antt =====
-- A capture of eight bytes, and one without a cap.
use mathlib.Core.List.{flatten}
use sandbox_driver.Base.{ℕ, ◌≡◌, refl, none, some, List, [], ◌∷◌, false}
use sandbox_driver.GitFailures.{bytes_of}
use sandbox_driver.Capture.{new, push, push_byte, push_tail, into_parts}
use sandbox_driver.Capture.Policy.{push_all, into_parts-push_all}

abbrev digits_in_two : List (List ℕ)
digits_in_two = bytes_of "012" ∷ bytes_of "3456789ABCDEF" ∷ []

into_parts-push_all_example : into_parts (push_all digits_in_two (new (some 8))) ≡ (
  bytes_of "0123CDEF",
  record { observed_bytes = 16; retained_bytes = 8; omitted_bytes = 8; truncated = false },
)
unfolding flatten
into_parts-push_all_example = into_parts-push_all (some 8) digits_in_two

into_parts-uncapped : into_parts (push_all digits_in_two (new none)) ≡ (
  [],
  record { observed_bytes = 16; retained_bytes = 0; omitted_bytes = 16; truncated = false },
)
unfolding new push push_byte push_tail into_parts
into_parts-uncapped = refl
