-- ===== src/Tar/Halves.antt =====
-- Headers, skips and content that the end of a chunk cuts (tar.rs).
use sandbox_driver.Base.{
  ℕ, ◌+◌, ◌-◌, ◌≤◌, ◌<◌, min, ◌≡◌, refl, sym, ap, ◌∙◌, inl, inr, true, false, List, [], ◌++◌,
  append_assoc, length, length-append, length-take, take, drop, ltb, Bool-cases, Option-cases,
  arith,
}
use sandbox_driver.Error.{Result, ok, err}
use sandbox_driver.Tar.{
  TarCrate, TarScanner, skip, need_more, Stepped, EntryType, classify, decide, fill, feed_header,
  feed_skip, tar_block, all_zero,
}
use sandbox_driver.Tar.Window.{
  take-all, drop-all, take-within, drop-within, take-beyond, drop-beyond,
}

abbrev pub extend : List ℕ → Result Stepped → Result Stepped
extend b (ok r) = ok (record r { chunk = r.chunk ++ b })
extend b (err e) = err e

module _ (crate : TarCrate) where
  pub classify-extend :
      (s : TarScanner) (k : EntryType) (n : ℕ) (d b : List ℕ)
      → classify crate s k n (d ++ b) ≡ extend b (classify crate s k n d)
  unfolding classify
  classify-extend s EntryType.other n d b = ground arith
  classify-extend s _ n d b = refl

  pub decide-extend :
      (s : TarScanner) (block d b : List ℕ)
      → decide crate s block (d ++ b) ≡ extend b (decide crate s block d)
  unfolding decide
  decide-extend s block d b = elim (Bool-cases (all_zero block)) [
    | inl z ↦ rw z
    | inr z ↦ elim (Option-cases (crate.entry_size block)) [
      | inl n ↦ rw (z, n)
      | inr (n, h) ↦
          rw (z, h) (classify-extend (record s { header = [] }) (crate.entry_type block) n d b)
    ]
  ]

  pub fill-extend :
      (s : TarScanner) (block d b : List ℕ)
      → tar_block ≤ length block
      → fill crate s block (d ++ b) ≡ extend b (fill crate s block d)
  unfolding fill
  fill-extend s block d b h =
      let e : ltb (length block) tar_block ≡ false = ground arith in
      rw e (decide-extend s block d b)

  -- The header forgets what it held: it is in the block.
  pub fill-header :
      (s : TarScanner) (held block d : List ℕ)
      → fill crate (record s { header = held }) block d ≡ fill crate s block d
  unfolding fill decide
  fill-header s held block d = refl

  pub fill-eq :
      (s : TarScanner) (x y u v : List ℕ) → x ≡ y → u ≡ v → fill crate s x u ≡ fill crate s y v
  fill-eq s x y u v p q = cc

  pub header_whole :
      (s : TarScanner) (a b : List ℕ)
      → length s.header ≤ tar_block
      → tar_block - length s.header ≤ length a
      → feed_header crate s (a ++ b) ≡ extend b (feed_header crate s a)
  unfolding feed_header
  header_whole s a b k h =
      let n = tar_block - length s.header in
      let e : min n (length (a ++ b)) ≡ n = omega (arith, length-append a b) in
      let w : min n (length a) ≡ n = omega arith in
      let whole : tar_block ≤ length (s.header ++ take n a) =
        omega (arith, length-append s.header (take n a), length-take n a) in
      rw (e, w)
        (fill-eq s _ _ _ _ (ap (◌++◌ s.header) (take-within n a b h)) (drop-within n a b h)
          ∙ fill-extend s (s.header ++ take n a) (drop n a) b whole)

  pub header_part :
      (s : TarScanner) (a b : List ℕ)
      → length s.header + length a < tar_block
      → feed_header crate s (a ++ b) ≡ feed_header crate (record s { header = s.header ++ a }) b
  unfolding feed_header
  header_part s a b h =
      let n = min (tar_block - length s.header) (length (a ++ b)) in
      let k = min (tar_block - length (s.header ++ a)) (length b) in
      let e : n ≡ length a + k = omega (arith, length-append a b, length-append s.header a) in
      fill-eq s _ _ _ _
        (ap (◌++◌ s.header) (take-beyond n k a b e) ∙ sym (append_assoc s.header a (take k b)))
        (drop-beyond n k a b e)
      ∙ sym (fill-header s (s.header ++ a) _ _)

  -- At a header, an incomplete block takes the whole chunk.
  pub header_step :
      (s : TarScanner) (a : List ℕ)
      → length s.header + length a < tar_block
      → feed_header crate s a
        ≡ ok
            (record { scanner = record s { header = s.header ++ a }; chunk = []; step = need_more })
  unfolding feed_header fill
  header_step s a h =
      let e : min (tar_block - length s.header) (length a) ≡ length a = omega arith in
      let w : ltb (length (s.header ++ a)) tar_block ≡ true =
        ground (arith, length-append s.header a) in
      rw (e, take-all (length a) a (omega arith), drop-all (length a) a (omega arith), w)

  pub skip_part :
      (s : TarScanner) (a b : List ℕ) (r : ℕ)
      → length a < r
      → feed_skip crate s (a ++ b) r
        ≡ feed_skip crate (record s { state = skip (r - length a) }) b (r - length a)
  unfolding feed_skip
  skip_part s a b r h =
      let n = min r (length (a ++ b)) in
      let k = min (r - length a) (length b) in
      let e : n ≡ length a + k = omega (arith, length-append a b) in
      let w : r - n ≡ r - length a - k = omega (arith, length-append a b) in
      rw (drop-beyond n k a b e, w)

  pub skip_whole :
      (s : TarScanner) (a b : List ℕ) (r : ℕ)
      → r ≤ length a
      → ok (feed_skip crate s (a ++ b) r) ≡ extend b (ok (feed_skip crate s a r))
  unfolding feed_skip
  skip_whole s a b r h =
      let e : min r (length (a ++ b)) ≡ r = omega (arith, length-append a b) in
      let w : min r (length a) ≡ r = omega arith in
      let z : ltb 0 (r - r) ≡ false = ground arith in rw (e, w, z, drop-within r a b h)

  pub skip_step :
      (s : TarScanner) (a : List ℕ) (r : ℕ)
      → length a < r
      → feed_skip crate s a r ≡ record {
        scanner = record s { state = skip (r - length a) };
        chunk = [];
        step = need_more;
      }
  unfolding feed_skip
  skip_step s a r h =
      let e : min r (length a) ≡ length a = omega arith in
      let w : ltb 0 (r - length a) ≡ true = ground arith in
      rw (e, w, drop-all (length a) a (omega arith))
