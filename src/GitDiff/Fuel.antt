-- ===== src/GitDiff/Fuel.antt =====
-- Each round takes a field, so their number is fuel enough (parse.rs).
use sandbox_driver.Base.{
  ℕ, ◌≤◌, ◌≡◌, refl, ap, Bool, true, false, Option, none, some, List, [], ◌∷◌, length, ◌==◌,
  if◌then◌else◌, arith,
}
use sandbox_driver.Error.{err}
use sandbox_driver.GitBatch.{cut_at}
use sandbox_driver.GitDiff.{
  GitDiffEntry, GitNumstat, split, Loop, fields_loop, followed, change_of, has_two, with_paths,
  take_paths, raw_parts, raw_header, raw_round, parse_raw_diff, push_numstat, numstat_paths,
  after_minus, after_plus, numstat_round, parse_numstat, malformed,
}
use sandbox_driver.GitDiff.Fields.{IsLocal, fields_loop-enough}

-- Two loops that agree on what is no longer than `n` fields.
abbrev Agree : {E : Type 0} → ℕ → Loop E → Loop E → Type 0
Agree n f g = (rest : List (List ℕ)) → length rest ≤ n → f rest ≡ g rest

module _ (lossy : List ℕ → List ℕ) where
  take_paths-Agree :
      (f g : Loop GitDiffEntry) (make : Option (List ℕ) → List ℕ → GitDiffEntry) (two : Bool)
      (fields : List (List ℕ))
      → Agree (length fields) f g
      → take_paths lossy f make two fields ≡ take_paths lossy g make two fields
  take_paths-Agree f g make true [] h = refl
  take_paths-Agree f g make false [] h = refl
  take_paths-Agree f g make false (path ∷ fields) h =
      ap (followed (make none (lossy path))) (h fields (omega arith))
  take_paths-Agree f g make true (old ∷ []) h = refl
  take_paths-Agree f g make true (old ∷ new ∷ fields) h =
      ap (followed (make (some (lossy old)) (lossy new))) (h fields (omega arith))

  raw_parts-Agree :
      (f g : Loop GitDiffEntry) (parts fields : List (List ℕ))
      → Agree (length fields) f g
      → raw_parts lossy f parts fields ≡ raw_parts lossy g parts fields
  raw_parts-Agree f g (om ∷ nm ∷ ob ∷ nb ∷ status ∷ []) fields h =
      take_paths-Agree f g (with_paths lossy om nm ob nb (change_of status))
        (has_two (change_of status).0) fields h
  raw_parts-Agree f g parts fields h = refl

  raw_header-Agree :
      (f g : Loop GitDiffEntry) (header : List ℕ) (fields : List (List ℕ))
      → Agree (length fields) f g
      → raw_header lossy f header fields ≡ raw_header lossy g header fields
  raw_header-Agree f g [] fields h = refl
  raw_header-Agree f g (b ∷ rest) fields h =
      ap (λ r. if b == 58 then r else err malformed) (raw_parts-Agree f g (split 32 rest) fields h)

  raw_round-IsLocal : IsLocal (raw_round lossy)
  unfolding raw_round
  raw_round-IsLocal f g header fields h = raw_header-Agree f g (lossy header) fields h

  numstat_paths-Agree :
      (f g : Loop GitNumstat) (plus minus path : List ℕ) (fields : List (List ℕ))
      → Agree (length fields) f g
      → numstat_paths lossy f plus minus path fields ≡ numstat_paths lossy g plus minus path fields
  numstat_paths-Agree f g plus minus (b ∷ path) fields h =
      ap (push_numstat lossy plus minus (b ∷ path) none) (h fields (omega arith))
  numstat_paths-Agree f g plus minus [] [] h = refl
  numstat_paths-Agree f g plus minus [] (old ∷ []) h = refl
  numstat_paths-Agree f g plus minus [] (old ∷ new ∷ fields) h =
      ap (push_numstat lossy plus minus (lossy new) (some (lossy old))) (h fields (omega arith))

  after_minus-Agree :
      (f g : Loop GitNumstat) (plus : List ℕ) (o : Option (List ℕ × List ℕ))
      (fields : List (List ℕ))
      → Agree (length fields) f g
      → after_minus lossy f plus o fields ≡ after_minus lossy g plus o fields
  after_minus-Agree f g plus none fields h = refl
  after_minus-Agree f g plus (some (minus, path)) fields h =
      numstat_paths-Agree f g plus minus path fields h

  after_plus-Agree :
      (f g : Loop GitNumstat) (o : Option (List ℕ × List ℕ)) (fields : List (List ℕ))
      → Agree (length fields) f g
      → after_plus lossy f o fields ≡ after_plus lossy g o fields
  after_plus-Agree f g none fields h = refl
  after_plus-Agree f g (some (plus, rest)) fields h =
      after_minus-Agree f g plus (cut_at 9 rest) fields h

  numstat_round-IsLocal : IsLocal (numstat_round lossy)
  unfolding numstat_round
  numstat_round-IsLocal f g entry fields h = after_plus-Agree f g (cut_at 9 (lossy entry)) fields h

  -- More fuel than the number of fields changes nothing, in either parser.
  pub parse_raw_diff-enough :
      (fuel : ℕ) (output : List ℕ)
      → length (split 0 output) ≤ fuel
      → fields_loop (raw_round lossy) fuel (split 0 output) ≡ parse_raw_diff lossy output
  unfolding parse_raw_diff
  parse_raw_diff-enough fuel output h =
      fields_loop-enough (raw_round lossy) fuel (length (split 0 output)) (split 0 output)
        raw_round-IsLocal h (omega arith)

  pub parse_numstat-enough :
      (fuel : ℕ) (output : List ℕ)
      → length (split 0 output) ≤ fuel
      → fields_loop (numstat_round lossy) fuel (split 0 output) ≡ parse_numstat lossy output
  unfolding parse_numstat
  parse_numstat-enough fuel output h =
      fields_loop-enough (numstat_round lossy) fuel (length (split 0 output)) (split 0 output)
        numstat_round-IsLocal h (omega arith)
