-- ===== src/GitBatch.antt =====
-- crates/sandbox-driver/src/derived/git/parse.rs: the answers of `git cat-file --batch`. A text is the
-- list of its bytes; `lossy` is left out, since it changes only bytes that neither `missing` nor a
-- number holds. The loop's `position` is the list that is left; its sum with a size is taken to fit
-- `usize`.
pub mod Fields
pub mod Answers
pub mod Tests
use sandbox_driver.Base.{
  ℕ, zero, suc, ◌+◌, ◌-◌, ◌*◌, ◌^◌, Bool, true, false, not, ◌&&◌, ◌||◌, Option, none, some, List,
  [], ◌∷◌, ◌++◌, length, take, drop, ltb, leb, within, ◌==◌, if◌then◌else◌,
}
use sandbox_driver.Error.{Error, io, Result, ok, err, ◌>>=◌}
use sandbox_driver.GitFailures.{bytes_of}

abbrev pub usize_max : ℕ
usize_max = 2 ^ 64 - 1

-- `malformed`
abbrev pub malformed : Error
malformed = io "parsing git cat-file"

-- What stands before the first `c`, and behind it.
abbrev pub cut_with : ℕ → Option (List ℕ × List ℕ) → Option (List ℕ × List ℕ)
cut_with b none = none
cut_with b (some (before, after)) = some (b ∷ before, after)

unfoldable pub cut_at : ℕ → List ℕ → Option (List ℕ × List ℕ)
cut_at c [] = none
cut_at c (b ∷ bs) = let rest = cut_at c bs in if b == c then some ([], bs) else cut_with b rest

abbrev pub part_of : List ℕ → Option (List ℕ × List ℕ) → Option (List ℕ) × Option (List ℕ)
part_of text none = (some text, none)
part_of text (some (part, rest)) = (some part, some rest)

-- The next part of `split(' ')`, and what the iterator has left; `none` at its end.
unfoldable pub next_part : Option (List ℕ) → Option (List ℕ) × Option (List ℕ)
next_part none = (none, none)
next_part (some text) = part_of text (cut_at b' ' text)

abbrev pub texts_equal : List ℕ → List ℕ → Bool
texts_equal [] [] = true
texts_equal (a ∷ s) (b ∷ t) = a == b && texts_equal s t
texts_equal _ _ = false

abbrev digits : ℕ → List ℕ → Option ℕ
digits value [] = some value
digits value (b ∷ bs) =
    let rest = digits (value * 10 + (b - b'0')) bs in if within b'0' b'9' b then rest else none

abbrev sized : Option ℕ → Option ℕ
sized none = none
sized (some n) = if ltb usize_max n then none else some n

abbrev unsigned : List ℕ → Option ℕ
unsigned [] = none
unsigned (b ∷ bs) = sized (digits 0 (b ∷ bs))

-- `str::parse::<usize>`: an optional plus sign, then digits, within the range
unfoldable pub parse_usize : List ℕ → Option ℕ
parse_usize [] = none
parse_usize (b ∷ bs) = if b == b'+' then unsigned bs else unsigned (b ∷ bs)

-- The match of `batch_header` on the two parts behind the name.
abbrev sized_header : Option ℕ → Result (Option ℕ)
sized_header none = err malformed
sized_header (some n) = ok (some n)

abbrev pub header_of : Option (List ℕ) → Option (List ℕ) → Result (Option ℕ)
header_of none size = err malformed
header_of (some kind) none =
    if texts_equal kind (bytes_of "missing") then ok none else err malformed
header_of (some kind) (some size) = sized_header (parse_usize size)

unfoldable pub batch_header : List ℕ → Result (Option ℕ)
batch_header line =
    let name = next_part (some line) in
    let kind = next_part name.1 in let size = next_part kind.1 in header_of kind.0 size.0

abbrev pub skip_newline : List ℕ → List ℕ
skip_newline [] = []
skip_newline (b ∷ bs) = if b == b'\n' then bs else b ∷ bs

abbrev pub Blobs : Type 0
Blobs = List (Option (List ℕ))

abbrev pub consed : Option (List ℕ) → Result Blobs → Result Blobs
consed blob (ok blobs) = ok (blob ∷ blobs)
consed blob (err e) = err e

-- A round behind its header line; `again` is the loop.
abbrev pub blob_of : (List ℕ → Result Blobs) → ℕ → Result (Option ℕ) → List ℕ → Result Blobs
blob_of again max_bytes (err e) rest = err e
blob_of again max_bytes (ok none) rest = consed none (again rest)
blob_of again max_bytes (ok (some size)) rest =
    if ltb (length rest) size
    then err malformed
    else consed (if leb size max_bytes then some (take size rest) else none)
        (again (skip_newline (drop size rest)))

abbrev pub line_of : (List ℕ → Result Blobs) → ℕ → Option (List ℕ × List ℕ) → Result Blobs
line_of again max_bytes none = ok []
line_of again max_bytes (some (line, rest)) = blob_of again max_bytes (batch_header line) rest

-- The loop of `parse_batch`: each round adds a blob, of `left` at most.
unfoldable pub batch_loop : ℕ → ℕ → List ℕ → Result Blobs
batch_loop zero max_bytes output = ok []
batch_loop (suc left) max_bytes output =
    line_of (batch_loop left max_bytes) max_bytes (cut_at b'\n' output)

abbrev pub counted : ℕ → Result Blobs → Result Blobs
counted count (err e) = err e
counted count (ok blobs) = if length blobs == count then ok blobs else err malformed

unfoldable pub parse_batch : List ℕ → ℕ → ℕ → Result Blobs
parse_batch output count max_bytes = counted count (batch_loop count max_bytes output)
