-- ===== src/GitDiff/RawDiff.antt =====
-- What `git diff --raw -z` prints is read back (parse.rs).
use sandbox_driver.Base.{
  ℕ, zero, suc, ◌+◌, ◌≤◌, ◌<◌, ◌≡◌, ◌≢◌, refl, ap, ◌∙◌, Bool, true, false, Option, none, some, List,
  [], ◌∷◌, ◌++◌, map, length, ltb, ◌==◌, All, All-append, arith,
}
use sandbox_driver.Error.{ok}
use sandbox_driver.GitBatch.{parse_usize}
use sandbox_driver.GitBatch.Fields.{Without}
use sandbox_driver.GitDiff.{
  GitChange, added, copied, deleted, modified, renamed, type_changed, unmerged, unknown,
  GitDiffEntry, split, parse_u8, Loop, fields_loop, followed, change_of, has_two, with_paths,
  take_paths, raw_parts, raw_header, raw_round, parse_raw_diff,
}
use sandbox_driver.GitDiff.Sides.{
  Side, text_of, side, IsField, IsSide, text_of-IsField, present-text_of,
}
use sandbox_driver.GitDiff.Fields.{split-nil, no_fields, split-found, split-last}

-- An entry of the diff, with the texts that git prints; `old` and the score, whose digits are for
-- `percent`, count where there are two paths.
pub record Printed : Type 0 where
  pub old_mode : Side
  pub new_mode : Side
  pub old_blob : Side
  pub new_blob : Side
  pub change : GitChange
  pub score : List ℕ
  pub percent : ℕ
  pub old : List ℕ
  pub path : List ℕ

abbrev pub letter : GitChange → ℕ
letter added = b'A'
letter copied = b'C'
letter deleted = b'D'
letter modified = b'M'
letter renamed = b'R'
letter type_changed = b'T'
letter unmerged = b'U'
letter unknown = b'X'

abbrev pub header_text : Printed → List ℕ
header_text e =
    b':'
    ∷ (text_of e.old_mode
        ++ (b' '
            ∷ (text_of e.new_mode
                ++ (b' '
                    ∷ (text_of e.old_blob
                        ++ (b' ' ∷ (text_of e.new_blob ++ (b' ' ∷ letter e.change ∷ e.score))))))))

abbrev pub paths : Bool → List ℕ → List ℕ → List ℕ → List ℕ
paths true old path rest = old ++ (0 ∷ (path ++ (0 ∷ rest)))
paths false old path rest = path ++ (0 ∷ rest)

-- The output for some entries.
abbrev pub print : List Printed → List ℕ
print [] = []
print (e ∷ entries) = header_text e ++ (0 ∷ paths (has_two e.change) e.old e.path (print entries))

abbrev pub old_of : Bool → List ℕ → Option (List ℕ)
old_of true old = some old
old_of false old = none

abbrev pub score_of : Bool → ℕ → Option ℕ
score_of true percent = some percent
score_of false percent = none

-- The entry that it stands for.
abbrev pub entry : Printed → GitDiffEntry
entry e = record {
  change = e.change;
  path = e.path;
  old_path = old_of (has_two e.change) e.old;
  old_mode = side e.old_mode;
  new_mode = side e.new_mode;
  old_blob = side e.old_blob;
  new_blob = side e.new_blob;
  similarity = score_of (has_two e.change) e.percent;
}

-- The digits of a score are for a percentage.
abbrev pub IsScore : Bool → List ℕ → ℕ → Type 0
IsScore true score percent = (parse_usize score ≡ some percent) × (percent ≤ 100)
IsScore false score percent = Unit

-- The texts of the header hold no separator, and neither does a path.
abbrev pub IsPrinted : (List ℕ → List ℕ) → Printed → Type 0
IsPrinted lossy e =
    ((e.change ≢ unknown) × IsScore (has_two e.change) e.score e.percent)
    × (IsSide e.old_mode × IsSide e.new_mode)
    × (IsSide e.old_blob × IsSide e.new_blob)
    × IsField e.score
    × (Without 0 e.old × Without 0 e.path)
    × ((lossy (header_text e) ≡ header_text e) × (lossy e.old ≡ e.old) × (lossy e.path ≡ e.path))

-- The score that is read where there are two paths.
abbrev scored : Bool → List ℕ → Option ℕ
scored true score = parse_u8 score
scored false score = none

scored-score_of :
    (two : Bool) (score : List ℕ) (percent : ℕ)
    → IsScore two score percent
    → scored two score ≡ score_of two percent
scored-score_of true score percent (p, l) =
    let n : ltb 255 percent ≡ false = ground arith in rw (p, n) refl
scored-score_of false score percent h = refl

change_of-letter :
    (c : GitChange) (score : List ℕ)
    → c ≢ unknown
    → change_of (letter c ∷ score) ≡ (c, scored (has_two c) score)
unfolding change_of
change_of-letter added score h = refl
change_of-letter copied score h = refl
change_of-letter deleted score h = refl
change_of-letter modified score h = refl
change_of-letter renamed score h = refl
change_of-letter type_changed score h = refl
change_of-letter unmerged score h = refl
change_of-letter unknown score h = absurd (h refl)

letter-Without : (c : GitChange) → ((letter c == 32) ≡ false) × ((letter c == 0) ≡ false)
letter-Without added = (refl, refl)
letter-Without copied = (refl, refl)
letter-Without deleted = (refl, refl)
letter-Without modified = (refl, refl)
letter-Without renamed = (refl, refl)
letter-Without type_changed = (refl, refl)
letter-Without unmerged = (refl, refl)
letter-Without unknown = (refl, refl)

Without-spaced : (s t : List ℕ) → Without 0 s → Without 0 t → Without 0 (s ++ (32 ∷ t))
Without-spaced s t a b = All-append (λ x. (x == 0) ≡ false) s (32 ∷ t) a (refl, b)

module _ (lossy : List ℕ → List ℕ) where
  header_text-Without : (e : Printed) → IsPrinted lossy e → Without 0 (header_text e)
  header_text-Without e (c, (om, nm), (ob, nb), s, p, l) = (
    refl,
    Without-spaced (text_of e.old_mode) _ (text_of-IsField e.old_mode om).1 (
        Without-spaced (text_of e.new_mode) _ (text_of-IsField e.new_mode nm).1 (
          Without-spaced (text_of e.old_blob) _ (text_of-IsField e.old_blob ob).1 (
            Without-spaced (text_of e.new_blob) (letter e.change ∷ e.score)
              (text_of-IsField e.new_blob nb).1 ((letter-Without e.change).1, s.1)))),
  )

  split-header_text :
      (e : Printed)
      → IsPrinted lossy e
      → split 32 (
          (text_of e.old_mode)
          ++ (32
              ∷ ((text_of e.new_mode)
                  ++ (32
                      ∷ ((text_of e.old_blob)
                          ++ (32 ∷ ((text_of e.new_blob) ++ (32 ∷ letter e.change ∷ e.score))))))))
        ≡ (text_of e.old_mode)
          ∷ (text_of e.new_mode)
          ∷ (text_of e.old_blob)
          ∷ (text_of e.new_blob)
          ∷ (letter e.change ∷ e.score)
          ∷ []
  split-header_text e (c, (om, nm), (ob, nb), s, p, l) =
      rw
        (
          split-found 32 (text_of e.old_mode)
              ((text_of e.new_mode)
                ++ (32
                    ∷ ((text_of e.old_blob)
                        ++ (32 ∷ ((text_of e.new_blob) ++ (32 ∷ letter e.change ∷ e.score))))))
              (text_of-IsField e.old_mode om).0,
          split-found 32 (text_of e.new_mode)
              ((text_of e.old_blob)
                ++ (32 ∷ ((text_of e.new_blob) ++ (32 ∷ letter e.change ∷ e.score))))
              (text_of-IsField e.new_mode nm).0,
          split-found 32 (text_of e.old_blob)
              ((text_of e.new_blob) ++ (32 ∷ letter e.change ∷ e.score))
              (text_of-IsField e.old_blob ob).0,
          split-found 32 (text_of e.new_blob) (letter e.change ∷ e.score)
              (text_of-IsField e.new_blob nb).0,
          split-last 32 (letter e.change ∷ e.score) ((letter-Without e.change).0, s.0),
        )
        refl

  take_paths-printed :
      (again : Loop GitDiffEntry) (make : Option (List ℕ) → List ℕ → GitDiffEntry) (two : Bool)
      (old path rest : List ℕ)
      → Without 0 old
      → Without 0 path
      → lossy old ≡ old
      → lossy path ≡ path
      → take_paths lossy again make two (split 0 (paths two old path rest))
        ≡ followed (make (old_of two old) path) (again (split 0 rest))
  take_paths-printed again make true old path rest a b c d =
      rw (split-found 0 old (path ++ (0 ∷ rest)) a, split-found 0 path rest b, c, d) refl
  take_paths-printed again make false old path rest a b c d = rw (split-found 0 path rest b, d) refl

  length-paths :
      (two : Bool) (old path rest : List ℕ)
      → Without 0 old
      → Without 0 path
      → length (split 0 rest) < length (split 0 (paths two old path rest))
  length-paths true old path rest a b =
      rw (split-found 0 old (path ++ (0 ∷ rest)) a, split-found 0 path rest b) (omega arith)
  length-paths false old path rest a b = rw (split-found 0 path rest b) (omega arith)

  -- The entry in the terms of the parser.
  abbrev read : Printed → GitDiffEntry
  read e =
      with_paths lossy (text_of e.old_mode) (text_of e.new_mode) (text_of e.old_blob)
        (text_of e.new_blob) (e.change, scored (has_two e.change) e.score)
        (old_of (has_two e.change) e.old) e.path

  read-entry : (e : Printed) → IsPrinted lossy e → read e ≡ entry e
  read-entry e ((c, sc), (om, nm), (ob, nb), s, p, l) =
      rw
        (
          present-text_of e.old_mode om,
          present-text_of e.new_mode nm,
          present-text_of e.old_blob ob,
          present-text_of e.new_blob nb,
          scored-score_of (has_two e.change) e.score e.percent sc,
        )
        refl

  raw_round-printed :
      (again : Loop GitDiffEntry) (e : Printed) (rest : List ℕ)
      → IsPrinted lossy e
      → raw_round lossy again (header_text e) (split 0 (paths (has_two e.change) e.old e.path rest))
        ≡ followed (entry e) (again (split 0 rest))
  unfolding raw_round
  raw_round-printed again e rest ((c, sc), om, ob, s, (a, b), (l, o, p)) =
      ap (λ h. raw_header lossy again h (split 0 (paths (has_two e.change) e.old e.path rest))) l
      ∙ ap
          (λ parts.
            raw_parts lossy again parts (split 0 (paths (has_two e.change) e.old e.path rest)))
          (split-header_text e ((c, sc), om, ob, s, (a, b), (l, o, p)))
      ∙ rw (change_of-letter e.change e.score c) (
          take_paths-printed again
            (with_paths lossy (text_of e.old_mode) (text_of e.new_mode) (text_of e.old_blob)
              (text_of e.new_blob) (e.change, scored (has_two e.change) e.score))
            (has_two e.change) e.old e.path rest a b o p
          ∙ ap (λ x. followed x (again (split 0 rest)))
              (read-entry e ((c, sc), om, ob, s, (a, b), (l, o, p))))

  split-print :
      (e : Printed) (entries : List Printed)
      → IsPrinted lossy e
      → split 0 (print (e ∷ entries))
        ≡ header_text e ∷ split 0 (paths (has_two e.change) e.old e.path (print entries))
  split-print e entries p =
      split-found 0 (header_text e) (paths (has_two e.change) e.old e.path (print entries))
        (header_text-Without e p)

  length-print :
      (e : Printed) (entries : List Printed)
      → IsPrinted lossy e
      → length (split 0 (print entries)) + 1 < length (split 0 (print (e ∷ entries)))
  length-print e entries (c, om, ob, s, (a, b), l) =
      rw (split-print e entries (c, om, ob, s, (a, b), l))
        (omega (arith, length-paths (has_two e.change) e.old e.path (print entries) a b))

  raw_loop-print :
      (fuel : ℕ) (entries : List Printed)
      → All (IsPrinted lossy) entries
      → length (split 0 (print entries)) ≤ fuel
      → fields_loop (raw_round lossy) fuel (split 0 (print entries)) ≡ ok (map entry entries)
  unfolding fields_loop
  raw_loop-print zero [] h k = absurd (omega (arith, no_fields))
  raw_loop-print (suc fuel) [] h k = ap (fields_loop (raw_round lossy) (suc fuel)) split-nil
  raw_loop-print zero (e ∷ entries) (p, h) k = absurd (omega (arith, length-print e entries p))
  raw_loop-print (suc fuel) (e ∷ entries) (p, h) k =
      ap (fields_loop (raw_round lossy) (suc fuel)) (split-print e entries p)
      ∙ raw_round-printed (fields_loop (raw_round lossy) fuel) e (print entries) p
      ∙ ap (followed (entry e))
          (raw_loop-print fuel entries h (omega (arith, length-print e entries p)))

  -- What git prints for the entries of a raw diff is read back as those entries, in order: each kind of
  -- change, the blobs and modes that are present, the score of a rename or copy, and the paths, whatever
  -- bytes but the separator they hold. `lossy` leaves the texts as they are.
  pub parse_raw_diff-print :
      (entries : List Printed)
      → All (IsPrinted lossy) entries
      → parse_raw_diff lossy (print entries) ≡ ok (map entry entries)
  unfolding parse_raw_diff
  parse_raw_diff-print entries h =
      raw_loop-print (length (split 0 (print entries))) entries h (omega arith)
