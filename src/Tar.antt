-- ===== src/Tar.antt =====
-- crates/sandbox-driver-docker/src/fs/tar.rs: `TarScanner`, the streaming reader that finds the first
-- regular file of an archive and keeps a range of its content. Bytes are numbers below 256; `u64` and
-- `usize` are numbers below 2 ^ 64, with saturating and checked operations written out. The header
-- parser of the `tar` crate is the parameter `TarCrate`.
pub mod Window
pub mod Runs
pub mod Content
pub mod Halves
pub mod Split
pub mod Append
pub mod Archive
pub mod Tests
use sandbox_driver.Base.{
  ℕ, zero, suc, ◌+◌, ◌-◌, ◌*◌, ◌%◌, ◌^◌, min, Bool, true, false, ◌&&◌, ◌||◌, not, Option, none,
  some, List, [], ◌∷◌, ◌++◌, length, take, drop, ltb, leb, ◌==◌, if◌then◌else◌,
}
use sandbox_driver.Error.{io, Result, ok, err, ◌>>=◌}

abbrev pub tar_block : ℕ
tar_block = 512

abbrev pub u64_max : ℕ
u64_max = 2 ^ 64 - 1

pub data EntryType : Type 0 where
  regular directory symlink hard_link other : EntryType

-- `tar::Header`: the size field and the entry type of a header block.
pub record TarCrate : Type 0 where
  pub entry_size : List ℕ → Option ℕ
  pub entry_type : List ℕ → EntryType

unfoldable pub padding_for : ℕ → ℕ
padding_for size = (tar_block - size % tar_block) % tar_block

pub data ScanState : Type 0 where
  header_state : ScanState
  skip : ℕ → ScanState
  content : ℕ → ℕ → ScanState
  done : ScanState

pub data Step : Type 0 where
  need_more continue finished : Step

pub data Archived : Type 0 where
  file not_a_file : Archived

-- `header` holds the first `header_len` bytes of the source's block.
pub record TarScanner : Type 0 where
  pub offset : ℕ
  pub wanted : Option ℕ
  pub header : List ℕ
  pub state : ScanState
  pub collected : List ℕ
  pub found : Bool

abbrev pub new : ℕ → Option ℕ → TarScanner
new offset wanted = record {
  offset = offset;
  wanted = wanted;
  header = [];
  state = header_state;
  collected = [];
  found = false;
}

-- `TarScanner::end`: the last byte that the read wants, exclusive.
abbrev end_of : ℕ → Option ℕ → ℕ
end_of offset none = u64_max
end_of offset (some n) = min (offset + n) u64_max

abbrev pub end : TarScanner → ℕ
end s = end_of s.offset s.wanted

-- `TarScanner::padded`
unfoldable pub padded : ℕ → Result ℕ
padded size =
    if ltb u64_max (size + padding_for size)
    then err (io "reading download archive")
    else ok (size + padding_for size)

abbrev pub all_zero : List ℕ → Bool
all_zero [] = true
all_zero (b ∷ bs) = b == 0 && all_zero bs

-- A step's scanner, the rest of the chunk and what comes next.
pub record Stepped : Type 0 where
  pub scanner : TarScanner
  pub chunk : List ℕ
  pub step : Step

-- The source's `?` on `entry_size`.
abbrev size_or_io : Option ℕ → Result ℕ
size_or_io none = err (io "reading download archive")
size_or_io (some n) = ok n

-- What the loop does behind a round, `again` being the loop.
abbrev pub resume_step :
    (TarScanner → List ℕ → Option (Result (TarScanner × Bool)))
    → Step
    → Stepped
    → Option (Result (TarScanner × Bool))
resume_step again need_more r = some (ok (r.scanner, false))
resume_step again finished r = some (ok (r.scanner, true))
resume_step again continue r = again r.scanner r.chunk

abbrev pub resume :
    (TarScanner → List ℕ → Option (Result (TarScanner × Bool)))
    → Result Stepped
    → Option (Result (TarScanner × Bool))
resume again (err e) = some (err e)
resume again (ok r) = resume_step again r.step r

module _ (crate : TarCrate) where
  -- What a whole header block decides; `s.header` has been emptied.
  unfoldable pub classify : TarScanner → EntryType → ℕ → List ℕ → Result Stepped
  classify s regular size chunk = ok (record {
    scanner = record s { found = true; state = content 0 size };
    chunk = chunk;
    step = continue;
  })
  classify s other size chunk = do
    remaining ← padded size
    ok (record { scanner = record s { state = skip remaining }; chunk = chunk; step = continue })
  classify s _ size chunk =
      ok (record { scanner = record s { state = done }; chunk = chunk; step = finished })

  unfoldable pub decide : TarScanner → List ℕ → List ℕ → Result Stepped
  decide s block chunk =
      let s' = record s { header = [] } in
      if all_zero block
      then ok (record { scanner = record s' { state = done }; chunk = chunk; step = finished })
      else do
        size ← size_or_io (crate.entry_size block)
        classify s' (crate.entry_type block) size chunk

  -- `feed_header` behind the copy: `block` is what the header holds now.
  unfoldable pub fill : TarScanner → List ℕ → List ℕ → Result Stepped
  fill s block chunk =
      if ltb (length block) tar_block
      then ok (record { scanner = record s { header = block }; chunk = chunk; step = need_more })
      else decide s block chunk

  -- `TarScanner::feed_header`
  unfoldable pub feed_header : TarScanner → List ℕ → Result Stepped
  feed_header s chunk =
      let n = min (tar_block - length s.header) (length chunk) in
      fill s (s.header ++ take n chunk) (drop n chunk)

  -- `TarScanner::feed_skip`
  unfoldable pub feed_skip : TarScanner → List ℕ → ℕ → Stepped
  feed_skip s chunk remaining =
      let n = min remaining (length chunk) in
      if ltb 0 (remaining - n)
      then record {
        scanner = record s { state = skip (remaining - n) };
        chunk = drop n chunk;
        step = need_more;
      }
      else record {
        scanner = record s { state = header_state };
        chunk = drop n chunk;
        step = continue;
      }

  -- `TarScanner::feed_content`
  unfoldable pub feed_content : TarScanner → List ℕ → ℕ → ℕ → Stepped
  feed_content s chunk position size =
      let n = min (length chunk) (size - position) in
      let keep_from = min (s.offset - position) n in
      let keep_to = min (end s - position) n in
      let kept =
        if ltb keep_from keep_to
        then s.collected ++ take (keep_to - keep_from) (drop keep_from chunk)
        else s.collected in
      if leb size (position + n) || leb (end s) (position + n)
      then record {
        scanner = record s { collected = kept; state = done };
        chunk = chunk;
        step = finished;
      }
      else record {
        scanner = record s { collected = kept; state = content (position + n) size };
        chunk = chunk;
        step = need_more;
      }

  -- One round of the loop of `TarScanner::feed`.
  unfoldable pub round_in : ScanState → TarScanner → List ℕ → Result Stepped
  round_in done s chunk = ok (record { scanner = s; chunk = chunk; step = finished })
  round_in header_state s chunk = feed_header s chunk
  round_in (skip remaining) s chunk = ok (feed_skip s chunk remaining)
  round_in (content position size) s chunk = ok (feed_content s chunk position size)

  -- The loop of `TarScanner::feed` on fuel; `none` when the fuel runs out.
  unfoldable pub feed_loop : ℕ → TarScanner → List ℕ → Option (Result (TarScanner × Bool))
  feed_loop zero s chunk = none
  feed_loop (suc fuel) s chunk = resume (feed_loop fuel) (round_in s.state s chunk)

  -- `TarScanner::feed`: `true` once nothing further is wanted. A round that goes on takes a byte
  -- or leaves a skip, so the fuel is enough.
  unfoldable pub feed : TarScanner → List ℕ → Option (Result (TarScanner × Bool))
  feed s chunk = feed_loop (2 * length chunk + 2) s chunk

-- `TarScanner::finish`
unfoldable pub finish : TarScanner → Result Archived
finish s = elim s.state [
  | done ↦ ok (if s.found then file else not_a_file)
  | _ ↦ err (io "reading download archive")
]
