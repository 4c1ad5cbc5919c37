-- ===== src/GitDiff/Numstat.antt =====
-- What `git diff --numstat -z` prints is read back (parse.rs).
use sandbox_driver.Base.{
  ℕ, zero, suc, ◌≤◌, ◌<◌, ◌≡◌, refl, sym, ap, ◌∙◌, inl, inr, false, Option, none, some, List, [],
  ◌∷◌, ◌++◌, map, length, ◌==◌, Bool-cases, All, All-append, arith,
}
use sandbox_driver.Error.{Result, ok}
use sandbox_driver.GitBatch.{cut_at, parse_usize, texts_equal}
use sandbox_driver.GitBatch.Fields.{Without, cut_at-found}
use sandbox_driver.Status.Labels.{texts_equal→≡}
use sandbox_driver.GitDiff.{
  GitNumstat, split, Loop, fields_loop, followed, count, numstat_of, push_numstat, numstat_paths,
  after_minus, after_plus, numstat_round, parse_numstat,
}
use sandbox_driver.GitDiff.Fields.{split-found, split-nil, no_fields}

-- A count: that of a binary file, or a text with its number.
pub data Count : Type 0 where
  binary : Count
  lines : List ℕ → ℕ → Count

abbrev pub text : Count → List ℕ
text binary = b'-' ∷ []
text (lines digits n) = digits

abbrev pub number : Count → Option ℕ
number binary = none
number (lines digits n) = some n

-- An entry; its paths are one that is not empty, or the old and the new one of a rename.
pub data Paths : Type 0 where
  one : ℕ → List ℕ → Paths
  two : List ℕ → List ℕ → Paths

pub record Row : Type 0 where
  pub plus : Count
  pub minus : Count
  pub paths : Paths

abbrev pub inline : Paths → List ℕ
inline (one b path) = b ∷ path
inline (two old new) = []

abbrev pub behind : Paths → List ℕ → List ℕ
behind (one b path) rest = rest
behind (two old new) rest = old ++ (0 ∷ (new ++ (0 ∷ rest)))

abbrev pub head : Row → List ℕ
head r = text r.plus ++ (b'\t' ∷ (text r.minus ++ (b'\t' ∷ inline r.paths)))

-- The output for some entries.
abbrev pub print : List Row → List ℕ
print [] = []
print (r ∷ rows) = head r ++ (0 ∷ behind r.paths (print rows))

abbrev pub new_of : Paths → List ℕ
new_of (one b path) = b ∷ path
new_of (two old new) = new

abbrev pub old_of : Paths → Option (List ℕ)
old_of (one b path) = none
old_of (two old new) = some old

-- The entry that it stands for.
abbrev pub entry : Row → GitNumstat
entry r = record {
  path = new_of r.paths;
  old_path = old_of r.paths;
  additions = number r.plus;
  deletions = number r.minus;
}

abbrev pub IsCount : Count → Type 0
IsCount binary = Unit
IsCount (lines digits n) = (parse_usize digits ≡ some n) × Without 9 digits × Without 0 digits

abbrev pub IsPaths : (List ℕ → List ℕ) → Paths → Type 0
IsPaths lossy (one b path) = Without 0 (b ∷ path)
IsPaths lossy (two old new) =
    (Without 0 old × Without 0 new) × ((lossy old ≡ old) × (lossy new ≡ new))

abbrev pub IsRow : (List ℕ → List ℕ) → Row → Type 0
IsRow lossy r = IsCount r.plus × IsCount r.minus × IsPaths lossy r.paths × (lossy (head r) ≡ head r)

no_dash : parse_usize (b'-' ∷ []) ≡ none
unfolding parse_usize
no_dash = refl

count-text :
    (lossy : List ℕ → List ℕ) (c : Count) → IsCount c → count lossy (text c) ≡ ok (number c)
unfolding count
count-text lossy binary h = refl
count-text lossy (lines digits n) (p, a, b) = elim (Bool-cases (texts_equal digits (b'-' ∷ []))) [
  | inl e ↦
      let q = texts_equal→≡ digits (b'-' ∷ []) e in
      let m : parse_usize (b'-' ∷ []) ≡ some n = ap parse_usize (sym q) ∙ p in
      let d = no_dash in absurd (ground arith)
  | inr e ↦ rw (e, p) refl
]

text-Without : (c : Count) → IsCount c → Without 9 (text c) × Without 0 (text c)
text-Without binary h = ((refl, tt), (refl, tt))
text-Without (lines digits n) (p, a, b) = (a, b)

inline-Without : (lossy : List ℕ → List ℕ) (p : Paths) → IsPaths lossy p → Without 0 (inline p)
inline-Without lossy (one b path) h = h
inline-Without lossy (two old new) h = tt

module _ (lossy : List ℕ → List ℕ) where
  head-Without : (r : Row) → IsRow lossy r → Without 0 (head r)
  head-Without r (p, m, w, l) =
      All-append (λ x. (x == 0) ≡ false) (text r.plus) (9 ∷ (text r.minus ++ (9 ∷ inline r.paths)))
        (text-Without r.plus p).1
        (
          refl,
          All-append (λ x. (x == 0) ≡ false) (text r.minus) (9 ∷ inline r.paths)
              (text-Without r.minus m).1 (refl, inline-Without lossy r.paths w),
        )

  push_numstat-row :
      (r : Row) (rest : Result (List GitNumstat)) (path : List ℕ) (old : Option (List ℕ))
      → IsRow lossy r
      → push_numstat lossy (text r.plus) (text r.minus) path old rest
        ≡ followed (numstat_of lossy path old (number r.plus) (number r.minus)) rest
  push_numstat-row r rest path old (p, m, w, l) =
      rw (count-text lossy r.plus p, count-text lossy r.minus m) refl

  numstat_paths-row :
      (again : Loop GitNumstat) (r : Row) (paths : Paths) (rest : List ℕ)
      → IsRow lossy r
      → IsPaths lossy paths
      → numstat_paths lossy again
          (text r.plus)
          (text r.minus)
          (inline paths)
          (split 0 (behind paths rest))
        ≡ followed
            (numstat_of lossy (new_of paths) (old_of paths) (number r.plus) (number r.minus))
            (again (split 0 rest))
  numstat_paths-row again r (one b path) rest h k =
      push_numstat-row r (again (split 0 rest)) (b ∷ path) none h
  numstat_paths-row again r (two old new) rest h ((a, b), (c, d)) =
      rw (split-found 0 old (new ++ (0 ∷ rest)) a, split-found 0 new rest b, c, d)
        (push_numstat-row r (again (split 0 rest)) new (some old) h)

  numstat_round-row :
      (again : Loop GitNumstat) (r : Row) (rest : List ℕ)
      → IsRow lossy r
      → numstat_round lossy again (head r) (split 0 (behind r.paths rest))
        ≡ followed (entry r) (again (split 0 rest))
  unfolding numstat_round
  numstat_round-row again r rest (p, m, w, l) =
      ap (λ t. after_plus lossy again (cut_at 9 t) (split 0 (behind r.paths rest))) l
      ∙ ap (λ c. after_plus lossy again c (split 0 (behind r.paths rest)))
          (cut_at-found 9 (text r.plus) (text r.minus ++ (9 ∷ inline r.paths))
            (text-Without r.plus p).0)
      ∙ ap (λ c. after_minus lossy again (text r.plus) c (split 0 (behind r.paths rest)))
          (cut_at-found 9 (text r.minus) (inline r.paths) (text-Without r.minus m).0)
      ∙ numstat_paths-row again r r.paths rest (p, m, w, l) w

  split-print :
      (r : Row) (rows : List Row)
      → IsRow lossy r
      → split 0 (print (r ∷ rows)) ≡ head r ∷ split 0 (behind r.paths (print rows))
  split-print r rows h = split-found 0 (head r) (behind r.paths (print rows)) (head-Without r h)

  length-behind :
      (paths : Paths) (rest : List ℕ)
      → IsPaths lossy paths
      → length (split 0 rest) ≤ length (split 0 (behind paths rest))
  length-behind (one b path) rest h = omega arith
  length-behind (two old new) rest ((a, b), c) =
      rw (split-found 0 old (new ++ (0 ∷ rest)) a, split-found 0 new rest b) (omega arith)

  length-print :
      (r : Row) (rows : List Row)
      → IsRow lossy r
      → length (split 0 (print rows)) < length (split 0 (print (r ∷ rows)))
  length-print r rows (p, m, w, l) =
      rw (split-print r rows (p, m, w, l)) (omega (arith, length-behind r.paths (print rows) w))

  -- A head is not empty, so the loop does not skip it.
  fields_loop-head :
      (fuel : ℕ) (c : Count) (more : List ℕ) (fields : List (List ℕ))
      → IsCount c
      → fields_loop (numstat_round lossy) (suc fuel) ((text c ++ (9 ∷ more)) ∷ fields)
        ≡ numstat_round lossy (fields_loop (numstat_round lossy) fuel) (text c ++ (9 ∷ more)) fields
  unfolding fields_loop
  fields_loop-head fuel binary more fields h = refl
  fields_loop-head fuel (lines [] n) more fields h = refl
  fields_loop-head fuel (lines (d ∷ digits) n) more fields h = refl

  numstat_loop-print :
      (fuel : ℕ) (rows : List Row)
      → All (IsRow lossy) rows
      → length (split 0 (print rows)) ≤ fuel
      → fields_loop (numstat_round lossy) fuel (split 0 (print rows)) ≡ ok (map entry rows)
  unfolding fields_loop
  numstat_loop-print zero [] h k = absurd (omega (arith, no_fields))
  numstat_loop-print (suc fuel) [] h k = ap (fields_loop (numstat_round lossy) (suc fuel)) split-nil
  numstat_loop-print zero (r ∷ rows) (p, h) k = absurd (omega (arith, length-print r rows p))
  numstat_loop-print (suc fuel) (r ∷ rows) (p, h) k =
      ap (fields_loop (numstat_round lossy) (suc fuel)) (split-print r rows p)
      ∙ fields_loop-head fuel r.plus (text r.minus ++ (9 ∷ inline r.paths))
          (split 0 (behind r.paths (print rows))) p.0
      ∙ numstat_round-row (fields_loop (numstat_round lossy) fuel) r (print rows) p
      ∙ ap (followed (entry r))
          (numstat_loop-print fuel rows h (omega (arith, length-print r rows p)))

  -- What git prints for the entries of a numstat is read back as those entries, in order: counts, the
  -- missing counts of binary files, and the paths of changes and renames, whatever bytes but the
  -- separator they hold. `lossy` leaves the texts as they are.
  pub parse_numstat-print :
      (rows : List Row)
      → All (IsRow lossy) rows
      → parse_numstat lossy (print rows) ≡ ok (map entry rows)
  unfolding parse_numstat
  parse_numstat-print rows h =
      numstat_loop-print (length (split 0 (print rows))) rows h (omega arith)
