-- ===== src/Tar/Tests.antt =====
-- The scanner on a small archive, with a header parser that reads the size from the first byte.
use mathlib.Core.List.{flatten}
use sandbox_driver.Base.{
  refl, replicate, length-replicate, suc, ap, ℕ, ◌≡◌, true, Option, none, some, List, [], ◌∷◌, ◌++◌,
  arith,
}
use sandbox_driver.Tar.{TarCrate, EntryType, TarScanner, content, new, feed, end, finish, file}
use sandbox_driver.Error.{ok}
use sandbox_driver.Tar.Window.{window}
use sandbox_driver.Tar.Archive.{regular, feed_all, feed_all-Archive}
use sandbox_driver.Tar.Append.{then_feed, feed-append}

abbrev size_of : List ℕ → Option ℕ
size_of [] = none
size_of (b ∷ bs) = some b

abbrev first_byte : TarCrate
first_byte = record { entry_size = size_of; entry_type = λ block. EntryType.regular }

-- Two bytes into a file of six, of which three are wanted from the second on.
abbrev inside : TarScanner
inside = record (new 1 (some 3)) { state = content 2 6; collected = 8 ∷ []; found = true }

feed-append_example :
    feed first_byte inside ((9 ∷ []) ++ (7 ∷ 5 ∷ []))
    ≡ then_feed first_byte (feed first_byte inside (9 ∷ [])) (7 ∷ 5 ∷ [])
feed-append_example = feed-append first_byte inside (9 ∷ []) (7 ∷ 5 ∷ []) (omega arith)

-- A header of three bytes, which come in two chunks behind it.
abbrev three : List ℕ
three = 3 ∷ replicate 511 0

abbrev abc : List ℕ
abc = 97 ∷ 98 ∷ 99 ∷ []

feed_all-Archive_example :
    (t : TarScanner) × (feed_all first_byte (new 1 (some 1)) three ((97 ∷ 98 ∷ []) ∷ (99 ∷ []) ∷ [])
      ≡ some (ok (t, true)))
    × (t.collected ≡ window 1 (end (new 1 (some 1))) abc)
    × (finish t ≡ ok file)
unfolding flatten
feed_all-Archive_example =
    feed_all-Archive first_byte 1 (some 1) abc three ((97 ∷ 98 ∷ []) ∷ (99 ∷ []) ∷ []) (
      regular three abc 3 (ap suc (length-replicate {A = ℕ} 511 0), refl, refl, refl) (omega arith)
        refl)
