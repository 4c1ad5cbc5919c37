-- ===== src/GitDiff.antt =====
-- crates/sandbox-driver/src/derived/git/parse.rs: `parse_raw_diff` and `parse_numstat`, with their types
-- from git.rs. A text is the list of its bytes; `lossy` is the standard library's replacement of bytes
-- that are no UTF-8. An iterator over fields is the list of those that are left.
pub mod Fields
pub mod Sides
pub mod RawDiff
pub mod Numstat
pub mod Fuel
pub mod Tests
use sandbox_driver.Base.{
  ℕ, zero, suc, ◌+◌, ◌-◌, Bool, true, false, not, ◌&&◌, ◌||◌, Option, none, some, List, [], ◌∷◌,
  ◌++◌, length, ltb, ◌==◌, if◌then◌else◌,
}
use sandbox_driver.Error.{Result, ok, err, ◌>>=◌}
use sandbox_driver.GitFailures.{bytes_of}
use sandbox_driver.GitBatch.{cut_at, parse_usize, texts_equal, malformed}

pub data GitChange : Type 0 where
  added copied deleted modified renamed type_changed unmerged unknown : GitChange

pub record GitDiffEntry : Type 0 where
  pub change : GitChange
  pub path : List ℕ
  pub old_path : Option (List ℕ)
  pub old_mode : Option (List ℕ)
  pub new_mode : Option (List ℕ)
  pub old_blob : Option (List ℕ)
  pub new_blob : Option (List ℕ)
  pub similarity : Option ℕ

pub record GitNumstat : Type 0 where
  pub path : List ℕ
  pub old_path : Option (List ℕ)
  pub additions : Option ℕ
  pub deletions : Option ℕ

-- `split` at a byte
abbrev pub first_more : ℕ → List (List ℕ) → List (List ℕ)
first_more b [] = (b ∷ []) ∷ []
first_more b (part ∷ parts) = (b ∷ part) ∷ parts

unfoldable pub split : ℕ → List ℕ → List (List ℕ)
split c [] = [] ∷ []
split c (b ∷ bs) = let rest = split c bs in if b == c then [] ∷ rest else first_more b rest

abbrev pub all_zeros : List ℕ → Bool
all_zeros [] = true
all_zeros (b ∷ bs) = b == b'0' && all_zeros bs

-- `present`: a blob or mode that git prints as all zeros is absent.
unfoldable pub present : List ℕ → Option (List ℕ)
present [] = none
present (b ∷ bs) = if all_zeros (b ∷ bs) then none else some (b ∷ bs)

-- `str::parse::<u8>`
abbrev pub in_byte : Option ℕ → Option ℕ
in_byte none = none
in_byte (some n) = if ltb 255 n then none else some n

abbrev pub parse_u8 : List ℕ → Option ℕ
parse_u8 text = in_byte (parse_usize text)

-- The loop over the fields, on fuel; a round reads a field that is not empty, and hands what it leaves
-- to the loop. Each round takes a field at least, so their number is enough.
abbrev pub Loop : Type 0 → Type 0
Loop E = List (List ℕ) → Result (List E)

unfoldable pub fields_loop :
    {E : Type 0} → (Loop E → List ℕ → List (List ℕ) → Result (List E)) → ℕ → Loop E
fields_loop round fuel [] = ok []
fields_loop round zero (field ∷ fields) = err malformed
fields_loop round (suc fuel) ([] ∷ fields) = fields_loop round fuel fields
fields_loop round (suc fuel) ((b ∷ field) ∷ fields) =
    round (fields_loop round fuel) (b ∷ field) fields

abbrev pub followed : {E : Type 0} → E → Result (List E) → Result (List E)
followed entry rest = rest >>= (λ entries. ok (entry ∷ entries))

-- The match on the letter of a status.
unfoldable pub change_of : List ℕ → GitChange × Option ℕ
change_of [] = (unknown, none)
change_of (letter ∷ letters) =
    if letter == b'A'
    then (added, none)
    else if letter == b'C'
    then (copied, parse_u8 letters)
    else if letter == b'D'
    then (deleted, none)
    else if letter == b'M'
    then (modified, none)
    else if letter == b'R'
    then (renamed, parse_u8 letters)
    else if letter == b'T'
    then (type_changed, none)
    else if letter == b'U'
    then (unmerged, none)
    else (unknown, none)

-- Whether an entry has two paths.
abbrev pub has_two : GitChange → Bool
has_two renamed = true
has_two copied = true
has_two _ = false

module _ (lossy : List ℕ → List ℕ) where
  -- An entry of the raw diff without its paths.
  abbrev pub with_paths :
      List ℕ
      → List ℕ
      → List ℕ
      → List ℕ
      → GitChange × Option ℕ
      → Option (List ℕ)
      → List ℕ
      → GitDiffEntry
  with_paths old_mode new_mode old_blob new_blob (change, similarity) old_path path = record {
    change = change;
    path = path;
    old_path = old_path;
    old_mode = present old_mode;
    new_mode = present new_mode;
    old_blob = present old_blob;
    new_blob = present new_blob;
    similarity = similarity;
  }

  -- The paths, of which a rename or a copy has two.
  abbrev pub take_paths :
      Loop GitDiffEntry
      → (Option (List ℕ) → List ℕ → GitDiffEntry)
      → Bool
      → List (List ℕ)
      → Result (List GitDiffEntry)
  take_paths again entry two [] = err malformed
  take_paths again entry false (path ∷ fields) = followed (entry none (lossy path)) (again fields)
  take_paths again entry true (old ∷ []) = err malformed
  take_paths again entry true (old ∷ new ∷ fields) =
      followed (entry (some (lossy old)) (lossy new)) (again fields)

  abbrev pub raw_parts :
      Loop GitDiffEntry → List (List ℕ) → List (List ℕ) → Result (List GitDiffEntry)
  raw_parts again (old_mode ∷ new_mode ∷ old_blob ∷ new_blob ∷ status ∷ []) fields =
      let change = change_of status in
      take_paths again (with_paths old_mode new_mode old_blob new_blob change) (has_two change.0)
        fields
  raw_parts again parts fields = err malformed

  abbrev pub raw_header : Loop GitDiffEntry → List ℕ → List (List ℕ) → Result (List GitDiffEntry)
  raw_header again [] fields = err malformed
  raw_header again (b ∷ rest) fields =
      let parsed = raw_parts again (split b' ' rest) fields in
      if b == b':' then parsed else err malformed

  unfoldable pub raw_round : Loop GitDiffEntry → List ℕ → List (List ℕ) → Result (List GitDiffEntry)
  raw_round again header fields = raw_header again (lossy header) fields

  unfoldable pub parse_raw_diff : List ℕ → Result (List GitDiffEntry)
  parse_raw_diff output =
      let fields = split 0 output in fields_loop raw_round (length fields) fields

  abbrev pub counted_as : Option ℕ → Result (Option ℕ)
  counted_as none = err malformed
  counted_as (some n) = ok (some n)

  unfoldable pub count : List ℕ → Result (Option ℕ)
  count text = if texts_equal text (bytes_of "-") then ok none else counted_as (parse_usize text)

  abbrev pub numstat_of : List ℕ → Option (List ℕ) → Option ℕ → Option ℕ → GitNumstat
  numstat_of path old_path additions deletions = record {
    path = path;
    old_path = old_path;
    additions = additions;
    deletions = deletions;
  }

  abbrev pub push_numstat :
      List ℕ
      → List ℕ
      → List ℕ
      → Option (List ℕ)
      → Result (List GitNumstat)
      → Result (List GitNumstat)
  push_numstat plus minus path old_path rest =
      count plus >>= (λ a. count minus >>= (λ d. followed (numstat_of path old_path a d) rest))

  -- The paths: a rename has an empty one, and two fields follow.
  abbrev pub numstat_paths :
      Loop GitNumstat → List ℕ → List ℕ → List ℕ → List (List ℕ) → Result (List GitNumstat)
  numstat_paths again plus minus (b ∷ path) fields =
      push_numstat plus minus (b ∷ path) none (again fields)
  numstat_paths again plus minus [] [] = err malformed
  numstat_paths again plus minus [] (old ∷ []) = err malformed
  numstat_paths again plus minus [] (old ∷ new ∷ fields) =
      push_numstat plus minus (lossy new) (some (lossy old)) (again fields)

  -- `splitn(3, '\t')`
  abbrev pub after_minus :
      Loop GitNumstat → List ℕ → Option (List ℕ × List ℕ) → List (List ℕ) → Result (List GitNumstat)
  after_minus again plus none fields = err malformed
  after_minus again plus (some (minus, path)) fields = numstat_paths again plus minus path fields

  abbrev pub after_plus :
      Loop GitNumstat → Option (List ℕ × List ℕ) → List (List ℕ) → Result (List GitNumstat)
  after_plus again none fields = err malformed
  after_plus again (some (plus, rest)) fields = after_minus again plus (cut_at b'\t' rest) fields

  unfoldable pub numstat_round : Loop GitNumstat → List ℕ → List (List ℕ) → Result (List GitNumstat)
  numstat_round again entry fields = after_plus again (cut_at b'\t' (lossy entry)) fields

  unfoldable pub parse_numstat : List ℕ → Result (List GitNumstat)
  parse_numstat output =
      let fields = split 0 output in fields_loop numstat_round (length fields) fields
