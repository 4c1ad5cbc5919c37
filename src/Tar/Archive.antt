-- ===== src/Tar/Archive.antt =====
-- What `TarScanner` reads out of an archive, in whichever chunks it comes (tar.rs).
use mathlib.Core.List.{flatten}
use sandbox_driver.Base.{
  ℕ, ◌+◌, ◌-◌, ◌≤◌, min, ◌≡◌, refl, sym, ap, ◌∙◌, Bool, true, false, ◌||◌, Option, some, List, [],
  ◌∷◌, ◌++◌, append-nil, length, length-append, take, take-length-append, drop-length-append, ltb,
  leb, arith,
}
use sandbox_driver.Error.{Result, ok, err}
use sandbox_driver.Tar.{
  TarCrate, TarScanner, EntryType, header_state, skip, content, done, continue, finished, file, new,
  end, tar_block, u64_max, padding_for, padded, all_zero, classify, decide, fill, feed_header,
  feed_skip, round_in, feed, finish,
}
use sandbox_driver.Tar.Window.{window}
use sandbox_driver.Tar.Content.{outcome, feed_content-outcome}
use sandbox_driver.Tar.Runs.{round, Runs, ends, goes, IsPartial, feed-Returns}
use sandbox_driver.Tar.Append.{then_feed, feed-append, Leaves, run-Leaves, run_feeds}

module _ (crate : TarCrate) where
  -- The block is a whole header of that type and size.
  abbrev pub IsHeader : List ℕ → EntryType → ℕ → Type 0
  IsHeader block kind size =
      (length block ≡ tar_block)
      × (all_zero block ≡ false)
      × (crate.entry_size block ≡ some size)
      × (crate.entry_type block ≡ kind)

  -- An archive whose first regular file has these bytes: entries of other types may stand before
  -- it, each with its data padded to whole blocks, and anything behind it.
  pub data Archive (body : List ℕ) : List ℕ → Type 0 where
    regular :
        (block tail : List ℕ) (size : ℕ)
        → IsHeader block EntryType.regular size
        → size ≤ length tail
        → take size tail ≡ body
        → Archive body (block ++ tail)
    other :
        (block data_ rest : List ℕ) (size : ℕ)
        → IsHeader block EntryType.other size
        → size + padding_for size ≤ u64_max
        → length data_ ≡ size + padding_for size
        → Archive body rest
        → Archive body (block ++ (data_ ++ rest))

  -- At the start of a header block.
  abbrev AtHeader : TarScanner → Type 0
  AtHeader s = (s.header ≡ []) × (s.state ≡ header_state)

  header_block :
      (s : TarScanner) (block tail : List ℕ)
      → AtHeader s
      → length block ≡ tar_block
      → round crate s (block ++ tail) ≡ decide crate s block tail
  unfolding round_in feed_header fill
  header_block s block tail (h, st) l =
      let z : length s.header ≡ 0 = ap length h in
      let n : min (tar_block - length s.header) (length (block ++ tail)) ≡ length block =
        omega (arith, length-append block tail) in
      let w : ltb (length block) tar_block ≡ false = ground arith in
      let f : feed_header crate s (block ++ tail) ≡ decide crate s block tail =
        rw (n, take-length-append block tail, drop-length-append block tail, h, w) refl in
      ap (λ x. round_in crate x s (block ++ tail)) st ∙ f

  regular_header :
      (s : TarScanner) (block tail : List ℕ) (size : ℕ)
      → IsHeader block EntryType.regular size
      → decide crate s block tail
        ≡ ok (record {
          scanner = record s { header = []; found = true; state = content 0 size };
          chunk = tail;
          step = continue;
        })
  unfolding decide classify
  regular_header s block tail size (l, z, n, k) = rw (z, n, k) refl

  other_header :
      (s : TarScanner) (block tail : List ℕ) (size : ℕ)
      → IsHeader block EntryType.other size
      → size + padding_for size ≤ u64_max
      → decide crate s block tail
        ≡ ok (record {
          scanner = record s { header = []; state = skip (size + padding_for size) };
          chunk = tail;
          step = continue;
        })
  unfolding decide classify padded
  other_header s block tail size (l, z, n, k) h =
      let e : ltb u64_max (size + padding_for size) ≡ false = ground arith in rw (z, n, k, e) refl

  skip_block :
      (s : TarScanner) (data_ rest : List ℕ)
      → feed_skip crate s (data_ ++ rest) (length data_)
        ≡ record { scanner = record s { state = header_state }; chunk = rest; step = continue }
  unfolding feed_skip
  skip_block s data_ rest =
      let e : min (length data_) (length (data_ ++ rest)) ≡ length data_ =
        omega (arith, length-append data_ rest) in
      let z : ltb 0 (length data_ - length data_) ≡ false = ground arith in
      rw (e, z, drop-length-append data_ rest) refl

  -- What the scan of a whole file leaves.
  abbrev pub HasRead : TarScanner → List ℕ → TarScanner → Type 0
  HasRead s body t =
      (t.collected ≡ s.collected ++ window s.offset (end s) body) × (finish t ≡ ok file)

  scan :
      (body : List ℕ) {bytes : List ℕ} (s : TarScanner)
      → Archive body bytes
      → AtHeader s
      → (t : TarScanner) × Runs crate s bytes (ok (t, true)) × HasRead s body t
  unfolding finish round_in
  scan body s (regular block tail size h l b) a =
      let s1 = record s { header = []; found = true; state = content 0 size } in
      let kept =
        s.collected
        ++ window (s.offset - 0) (end s - 0) (take (min (length tail) (size - 0)) tail) in
      let e : (leb size (0 + min (length tail) (size - 0))
            || leb (end s) (0 + min (length tail) (size - 0)))
          ≡ true =
        ground arith in
      let r : outcome s1 tail 0 size ≡ record {
        scanner = record s1 { collected = kept; state = done };
        chunk = tail;
        step = finished;
      } =
        rw e refl in
      let all_of : min (length tail) (size - 0) ≡ size = omega arith in
      let from : s.offset - 0 ≡ s.offset = omega arith in
      let to : end s - 0 ≡ end s = omega arith in
      (
        record s1 { collected = kept; state = done },
        goes _ (header_block s block tail a h.0 ∙ regular_header s block tail size h) refl
            (ends _ (ap ok (feed_content-outcome crate s1 tail 0 size ∙ r)) refl),
        (rw (all_of, from, to, b) refl, refl),
      )
  scan body s (other block data_ rest size h m l next) a =
      let s1 = record s { header = []; state = skip (size + padding_for size) } in
      let (t, run, read) = scan body (record s1 { state = header_state }) next (refl, refl) in
      (
        t,
        goes _
            (header_block s block (data_ ++ rest) a h.0
              ∙ other_header s block (data_ ++ rest) size h m)
            refl
            (goes _
              (ap ok (ap (feed_skip crate s1 (data_ ++ rest)) (sym l) ∙ skip_block s1 data_ rest))
              refl run),
        read,
      )

  -- Feeding one chunk after another, until the scanner is done or has failed.
  abbrev pub feed_next :
      (TarScanner → Option (Result (TarScanner × Bool)))
      → Option (Result (TarScanner × Bool))
      → Option (Result (TarScanner × Bool))
  feed_next next (some (ok (t, false))) = next t
  feed_next next y = y

  unfoldable pub feed_all :
      TarScanner → List ℕ → List (List ℕ) → Option (Result (TarScanner × Bool))
  feed_all s c [] = feed crate s c
  feed_all s c (d ∷ ds) = feed_next (λ t. feed_all t d ds) (feed crate s c)

  next_chunk :
      (d : List ℕ) (ds : List (List ℕ)) (y : Result (TarScanner × Bool))
      → Leaves crate y
      → ((t : TarScanner) → IsPartial t → feed_all t d ds ≡ feed crate t (d ++ flatten ds))
      → feed_next (λ t. feed_all t d ds) (some y) ≡ then_feed crate (some y) (d ++ flatten ds)
  next_chunk d ds (err e) l k = refl
  next_chunk d ds (ok (t, true)) l k = refl
  next_chunk d ds (ok (t, false)) l k = k t l

  feed_all-flatten :
      (s : TarScanner) (c : List ℕ) (ds : List (List ℕ))
      → IsPartial s
      → feed_all s c ds ≡ feed crate s (c ++ flatten ds)
  unfolding feed_all flatten
  feed_all-flatten s c [] h = ap (feed crate s) (sym (append-nil c))
  feed_all-flatten s c (d ∷ ds) h =
      let (y, e, run) = feed-Returns crate s c h in
      ap (feed_next (λ t. feed_all t d ds)) e
      ∙ next_chunk d ds y (run-Leaves crate y run h) (λ t k. feed_all-flatten t d ds k)
      ∙ ap (λ o. then_feed crate o (d ++ flatten ds)) (sym e)
      ∙ sym (feed-append crate s c (d ++ flatten ds) h)

  -- In whichever chunks an archive comes, a new scanner ends with the wanted range of its first
  -- regular file, and says that it is a file; headers of other types before it are passed over.
  pub feed_all-Archive :
      (offset : ℕ) (wanted : Option ℕ) (body c : List ℕ) (ds : List (List ℕ))
      → Archive body (c ++ flatten ds)
      → (t : TarScanner) × (feed_all (new offset wanted) c ds ≡ some (ok (t, true)))
        × (t.collected ≡ window offset (end (new offset wanted)) body)
        × (finish t ≡ ok file)
  feed_all-Archive offset wanted body c ds h =
      let (t, run, (read, is_file)) = scan body (new offset wanted) h (refl, refl) in
      (
        t,
        feed_all-flatten (new offset wanted) c ds (omega arith) ∙ run_feeds crate run (omega arith),
        read,
        is_file,
      )
