-- ===== src/GitDiff/Tests.antt =====
-- A rename behind an addition, and their counts.
use sandbox_driver.Base.{ℕ, ◌≡◌, refl, inl, none, some, List, [], ◌∷◌, arith}
use sandbox_driver.Error.{ok}
use sandbox_driver.GitFailures.{bytes_of}
use sandbox_driver.GitBatch.{parse_usize}
use sandbox_driver.GitDiff.{GitDiffEntry, added, renamed, parse_raw_diff, parse_numstat, present}
use sandbox_driver.GitDiff.Sides.{zeros, there}
use sandbox_driver.GitDiff.RawDiff
use sandbox_driver.GitDiff.RawDiff.{Printed, parse_raw_diff-print}
use sandbox_driver.GitDiff.Numstat
use sandbox_driver.GitDiff.Numstat.{Row, binary, lines, one, two, parse_numstat-print}

-- Valid UTF-8 stays as it is.
abbrev lossy : List ℕ → List ℕ
lossy text = text

abbrev changes : List Printed
changes =
    record {
      old_mode = zeros 5;
      new_mode = there (bytes_of "100644");
      old_blob = zeros 6;
      new_blob = there (bytes_of "a0");
      change = added;
      score = [];
      percent = 0;
      old = [];
      path = bytes_of "f";
    }
    ∷ record {
      old_mode = there (bytes_of "1");
      new_mode = there (bytes_of "1");
      old_blob = there (bytes_of "b");
      new_blob = there (bytes_of "c");
      change = renamed;
      score = bytes_of "7";
      percent = 7;
      old = bytes_of "g";
      path = bytes_of "h";
    }
    ∷ []

-- What is read back of the two.
abbrev entries : List GitDiffEntry
entries =
    record {
      change = added;
      path = bytes_of "f";
      old_path = none;
      old_mode = none;
      new_mode = some (bytes_of "100644");
      old_blob = none;
      new_blob = some (bytes_of "a0");
      similarity = none;
    }
    ∷ record {
      change = renamed;
      path = bytes_of "h";
      old_path = some (bytes_of "g");
      old_mode = some (bytes_of "1");
      new_mode = some (bytes_of "1");
      old_blob = some (bytes_of "b");
      new_blob = some (bytes_of "c");
      similarity = some 7;
    }
    ∷ []

parse_raw_diff-print_example : parse_raw_diff lossy (RawDiff.print changes) ≡ ok entries
unfolding present parse_usize
parse_raw_diff-print_example = parse_raw_diff-print lossy changes (
  (
    ((λ e. ground arith), tt),
    (
      tt,
      (
        (
          (refl, (refl, (refl, (refl, (refl, (refl, tt)))))),
          (refl, (refl, (refl, (refl, (refl, (refl, tt)))))),
        ),
        inl (λ e. ground arith),
      ),
    ),
    (tt, (((refl, (refl, tt)), (refl, (refl, tt))), inl (λ e. ground arith))),
    (tt, tt),
    (tt, (refl, tt)),
    (refl, refl, refl),
  ),
  (
    (
      ((λ e. ground arith), (refl, omega arith)),
      (
        (((refl, tt), (refl, tt)), inl (λ e. ground arith)),
        (((refl, tt), (refl, tt)), inl (λ e. ground arith)),
      ),
      (
        (((refl, tt), (refl, tt)), inl (λ e. ground arith)),
        (((refl, tt), (refl, tt)), inl (λ e. ground arith)),
      ),
      ((refl, tt), (refl, tt)),
      ((refl, tt), (refl, tt)),
      (refl, refl, refl),
    ),
    tt,
  ),
)

abbrev rows : List Row
rows =
    record { plus = lines (bytes_of "3") 3; minus = lines (bytes_of "1") 1; paths = one 102 [] }
    ∷ record { plus = binary; minus = binary; paths = two (bytes_of "g") (bytes_of "h") }
    ∷ []

parse_numstat-print_example :
    parse_numstat lossy (Numstat.print rows)
    ≡ ok (
        record { path = bytes_of "f"; old_path = none; additions = some 3; deletions = some 1 }
        ∷ record {
          path = bytes_of "h";
          old_path = some (bytes_of "g");
          additions = none;
          deletions = none;
        }
        ∷ [])
unfolding parse_usize
parse_numstat-print_example = parse_numstat-print lossy rows (
  ((refl, (refl, tt), (refl, tt)), (refl, (refl, tt), (refl, tt)), (refl, tt), refl),
  ((tt, tt, (((refl, tt), (refl, tt)), (refl, refl)), refl), tt),
)
