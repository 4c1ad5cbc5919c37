-- ===== src/Tar/Split.antt =====
-- How a round of `TarScanner::feed` over two chunks relates to one over the first (tar.rs).
use sandbox_driver.Base.{
  ℕ, ◌+◌, ◌-◌, ◌≤◌, min, ◌≡◌, ◌≢◌, refl, sym, ap, ◌∙◌, ◌⊎◌, inl, inr, false, List, [], ◌++◌, length,
  length-append, length-take, take, drop, ltb, ltb→lt, Bool-cases, Option-cases, arith,
}
use sandbox_driver.Error.{ok}
use sandbox_driver.Tar.{
  TarCrate, TarScanner, ScanState, header_state, skip, content, done, need_more, continue, Stepped,
  EntryType, classify, decide, fill, feed_header, feed_skip, round_in, tar_block, all_zero,
}
use sandbox_driver.Tar.Content.{
  Same, outcome, stops, reach, seen, outcome-Waits, outcome_at-step, outcome-ends, outcome_part,
  outcome_whole, feed_content-outcome,
}
use sandbox_driver.Tar.Runs.{round, IsPartial}
use sandbox_driver.Tar.Halves.{
  extend, header_part, header_step, header_whole, skip_part, skip_step, skip_whole,
}

module _ (crate : TarCrate) where
  -- A round over `a ++ b` is the round over `a` with `b` left over; or, where the round over `a`
  -- waits for more, it is the round over `b` from there.
  pub data Split (s : TarScanner) (a b : List ℕ) : Type 0 where
    whole :
        round crate s (a ++ b) ≡ extend b (round crate s a)
        → ((r : Stepped) → round crate s a ≡ ok r → r.step ≢ need_more)
        → Split s a b
    part :
        (r : Stepped)
        → round crate s a ≡ ok r
        → r.step ≡ need_more
        → IsPartial r.scanner
        → (round crate s (a ++ b) ≡ round crate r.scanner b)
          ⊎ ((x y : Stepped) × (round crate s (a ++ b) ≡ ok x)
              × (round crate r.scanner b ≡ ok y)
              × Same x y
              × (y.step ≢ continue))
        → Split s a b

  at_state :
      (s : TarScanner) (st : ScanState) (c : List ℕ)
      → s.state ≡ st
      → round crate s c ≡ round_in crate st s c
  at_state s st c e = ap (λ (x : ScanState). round_in crate x s c) e

  classify-step :
      (s : TarScanner) (k : EntryType) (n : ℕ) (d : List ℕ) (r : Stepped)
      → classify crate s k n d ≡ ok r
      → r.step ≢ need_more
  unfolding classify
  classify-step s EntryType.other n d r e h = ground arith
  classify-step s _ n d r e h = ground arith

  decide-step :
      (s : TarScanner) (block d : List ℕ) (r : Stepped)
      → decide crate s block d ≡ ok r
      → r.step ≢ need_more
  unfolding decide
  decide-step s block d r e h = elim (Bool-cases (all_zero block)) [
    | inl z ↦ ground arith
    | inr z ↦ elim (Option-cases (crate.entry_size block)) [
      | inl n ↦ ground arith
      | inr (n, w) ↦
          classify-step (record s { header = [] }) (crate.entry_type block) n d r (rw (z, w) at e) h
    ]
  ]

  header_decides :
      (s : TarScanner) (a : List ℕ) (r : Stepped)
      → length s.header ≤ tar_block
      → tar_block - length s.header ≤ length a
      → feed_header crate s a ≡ ok r
      → r.step ≢ need_more
  unfolding feed_header fill
  header_decides s a r k h e =
      let n = min (tar_block - length s.header) (length a) in
      let w : ltb (length (s.header ++ take n a)) tar_block ≡ false =
        ground (arith, length-append s.header (take n a), length-take n a) in
      decide-step s (s.header ++ take n a) (drop n a) r (rw w at e)

  skip_goes :
      (s : TarScanner) (a : List ℕ) (r : ℕ) → r ≤ length a → (feed_skip crate s a r).step ≡ continue
  unfolding feed_skip
  skip_goes s a r h = ground arith

  split_header :
      (s : TarScanner) (a b : List ℕ) → s.state ≡ header_state → IsPartial s → Split s a b
  split_header s a b e h = elim (Bool-cases (ltb (length s.header + length a) tar_block)) [
    | inl p ↦
        let q = ltb→lt _ _ p in
        let t = record s { header = s.header ++ a } in
        part (record { scanner = t; chunk = []; step = need_more })
          (in_header s e a ∙ header_step crate s a q) refl (omega (arith, length-append s.header a))
          (inl (in_header s e (a ++ b) ∙ header_part crate s a b q ∙ sym (in_header t e b)))
    | inr p ↦
        whole
          (in_header s e (a ++ b)
            ∙ header_whole crate s a b (omega arith) (ground arith)
            ∙ ap (extend b) (sym (in_header s e a)))
          (λ r w. header_decides s a r (omega arith) (ground arith) (sym (in_header s e a) ∙ w))
  ]
    where
      in_header :
          (t : TarScanner)
          → t.state ≡ header_state
          → (c : List ℕ) → round crate t c ≡ feed_header crate t c
      in_header t w c = unfold round_in in at_state t header_state c w

  split_skip :
      (s : TarScanner) (a b : List ℕ) (r : ℕ) → s.state ≡ skip r → IsPartial s → Split s a b
  split_skip s a b r e h = elim (Bool-cases (ltb (length a) r)) [
    | inl p ↦
        let q = ltb→lt _ _ p in
        let t = record s { state = skip (r - length a) } in
        part (record { scanner = t; chunk = []; step = need_more })
          (in_skip s r e a ∙ ap ok (skip_step crate s a r q)) refl h
          (inl (
            in_skip s r e (a ++ b)
            ∙ ap ok (skip_part crate s a b r q)
            ∙ sym (in_skip t (r - length a) refl b)))
    | inr p ↦
        whole
          (in_skip s r e (a ++ b)
            ∙ skip_whole crate s a b r (ground arith)
            ∙ ap (extend b) (sym (in_skip s r e a)))
          (λ t w g. cc (in_skip s r e a, skip_goes s a r (ground arith)))
  ]
    where
      in_skip :
          (t : TarScanner) (n : ℕ)
          → t.state ≡ skip n
          → (c : List ℕ) → round crate t c ≡ ok (feed_skip crate t c n)
      in_skip t n w c = unfold round_in in at_state t (skip n) c w

  split_content :
      (s : TarScanner) (a b : List ℕ) (position size : ℕ)
      → s.state ≡ content position size
      → IsPartial s
      → Split s a b
  split_content s a b position size e h =
      elim (Bool-cases (stops s size (position + reach a position size))) [
        | inr p ↦
            let t = seen s a position size in
            part (record { scanner = t; chunk = a; step = need_more })
              (in_content s position size e a ∙ ap ok (outcome-Waits s a position size p)) refl h
              (inr (
                _,
                _,
                in_content s position size e (a ++ b),
                in_content t (position + length a) size refl b,
                outcome_part s a b position size p,
                outcome_at-step t _ _ size b,
              ))
        | inl p ↦
            whole
              (in_content s position size e (a ++ b)
                ∙ ap ok (outcome_whole s a b position size p)
                ∙ ap (extend b) (sym (in_content s position size e a)))
              (λ t w g. cc (in_content s position size e a, outcome-ends s a position size p))
      ]
    where
      in_content :
          (t : TarScanner) (n m : ℕ)
          → t.state ≡ content n m
          → (c : List ℕ) → round crate t c ≡ ok (outcome t c n m)
      in_content t n m w c =
          unfold round_in in
          at_state t (content n m) c w ∙ ap ok (feed_content-outcome crate t c n m)

  pub split_in :
      (st : ScanState) (s : TarScanner) (a b : List ℕ) → s.state ≡ st → IsPartial s → Split s a b
  split_in header_state s a b e h = split_header s a b e h
  split_in (skip r) s a b e h = split_skip s a b r e h
  split_in (content position size) s a b e h = split_content s a b position size e h
  split_in done s a b e h = unfold round_in in whole (rw e) (λ r p. ground arith)
