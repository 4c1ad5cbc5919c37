-- ===== src/Tar/Runs.antt =====
-- The loop of `TarScanner::feed` as a relation, and that it ends (tar.rs).
use sandbox_driver.Base.{
  ℕ, zero, suc, ◌+◌, ◌-◌, ◌*◌, ◌<◌, min, ◌≡◌, refl, subst, inl, inr, Bool, true, false, Option,
  some, List, [], ◌++◌, length, length-append, length-take, length-drop, take, drop, ltb, ltb→lt,
  Bool-cases, Option-cases, arith,
}
use sandbox_driver.Error.{Error, Result, ok, err}
use sandbox_driver.Tar.{
  TarCrate, TarScanner, ScanState, header_state, skip, content, done, Step, need_more, continue,
  finished, Stepped, EntryType, classify, decide, fill, feed_header, feed_skip, feed_content,
  round_in, feed_loop, feed, resume, resume_step, tar_block, all_zero,
}

-- A header block is never held whole.
abbrev pub IsPartial : TarScanner → Type 0
IsPartial s = length s.header < tar_block

abbrev rank : ScanState → ℕ
rank (skip n) = 1
rank _ = 0

abbrev pub measure : TarScanner → List ℕ → ℕ
measure s c = 2 * length c + rank s.state

pub measure-lt : (s : TarScanner) (c : List ℕ) → measure s c < 2 * length c + 2
measure-lt s c = ground arith

module _ (crate : TarCrate) where
  abbrev pub round : TarScanner → List ℕ → Result Stepped
  round s chunk = round_in crate s.state s chunk

  -- The loop from a scanner over a chunk, with what it returns.
  pub data Runs : TarScanner → List ℕ → Result (TarScanner × Bool) → Type 0 where
    fails : {s : TarScanner} {c : List ℕ} (e : Error) → round s c ≡ err e → Runs s c (err e)
    waits :
        {s : TarScanner} {c : List ℕ} (r : Stepped)
        → round s c ≡ ok r
        → r.step ≡ need_more
        → Runs s c (ok (r.scanner, false))
    ends :
        {s : TarScanner} {c : List ℕ} (r : Stepped)
        → round s c ≡ ok r
        → r.step ≡ finished
        → Runs s c (ok (r.scanner, true))
    goes :
        {s : TarScanner} {c : List ℕ} {x : Result (TarScanner × Bool)} (r : Stepped)
        → round s c ≡ ok r
        → r.step ≡ continue
        → Runs r.scanner r.chunk x
        → Runs s c x

  -- What a round leaves, when it goes on.
  abbrev Advances : TarScanner → List ℕ → Result Stepped → Type 0
  Advances s c (err e) = Unit
  Advances s c (ok r) =
      IsPartial r.scanner × (r.step ≡ continue → measure r.scanner r.chunk < measure s c)

  classify-Advances :
      (s t : TarScanner) (c d : List ℕ) (k : EntryType) (n : ℕ)
      → t.state ≡ header_state
      → s.header ≡ []
      → length d < length c
      → Advances t c (classify crate s k n d)
  unfolding classify
  classify-Advances s t c d EntryType.regular n e h l = ground arith
  classify-Advances s t c d EntryType.other n e h l = ground arith
  classify-Advances s t c d _ n e h l = ground arith

  decide-Advances :
      (s t : TarScanner) (c d block : List ℕ)
      → t.state ≡ header_state
      → length d < length c
      → Advances t c (decide crate s block d)
  unfolding decide
  decide-Advances s t c d block e l = elim (Bool-cases (all_zero block)) [
    | inl z ↦ rw z (omega arith, λ h. cc)
    | inr z ↦ elim (Option-cases (crate.entry_size block)) [
      | inl n ↦ rw (z, n) tt
      | inr (n, h) ↦
          rw (z, h)
            (classify-Advances (record s { header = [] }) t c d (crate.entry_type block) n e refl l)
    ]
  ]

  feed_header-Advances :
      (s : TarScanner) (c : List ℕ)
      → s.state ≡ header_state
      → IsPartial s
      → Advances s c (feed_header crate s c)
  unfolding feed_header fill
  feed_header-Advances s c e h =
      let n = min (tar_block - length s.header) (length c) in
      let block = s.header ++ take n c in
      let size : length block ≡ length s.header + min n (length c) =
        omega (arith, length-append s.header (take n c), length-take n c) in
      elim (Bool-cases (ltb (length block) tar_block)) [
        | inl p ↦ rw p (ltb→lt _ _ p, λ k. cc)
        | inr p ↦
            rw p (decide-Advances s s c (drop n c) block e (ground (arith, size, length-drop n c)))
      ]

  feed_skip-Advances :
      (s : TarScanner) (c : List ℕ) (remaining : ℕ)
      → s.state ≡ skip remaining
      → IsPartial s
      → Advances s c (ok (feed_skip crate s c remaining))
  unfolding feed_skip
  feed_skip-Advances s c remaining e h =
      let n = min remaining (length c) in
      elim (Bool-cases (ltb 0 (remaining - n))) [
        | inl p ↦ rw p (h, λ k. cc)
        | inr p ↦ rw (p, e) (h, λ k. omega (arith, length-drop n c))
      ]

  feed_content-Advances :
      (s t : TarScanner) (c : List ℕ) (position size : ℕ)
      → IsPartial s
      → Advances t c (ok (feed_content crate s c position size))
  unfolding feed_content
  feed_content-Advances s t c position size h = ground arith

  round_in-Advances :
      (st : ScanState) (s : TarScanner) (c : List ℕ)
      → s.state ≡ st
      → IsPartial s
      → Advances s c (round_in crate st s c)
  unfolding round_in
  round_in-Advances header_state s c e h = feed_header-Advances s c e h
  round_in-Advances (skip n) s c e h = feed_skip-Advances s c n e h
  round_in-Advances (content position size) s c e h = feed_content-Advances s s c position size h
  round_in-Advances done s c e h = (h, λ k. cc)

  pub round-IsPartial :
      (s : TarScanner) (c : List ℕ) (r : Stepped)
      → IsPartial s
      → round s c ≡ ok r
      → IsPartial r.scanner
  round-IsPartial s c r h e = (subst (Advances s c) e (round_in-Advances s.state s c refl h)).0

  abbrev pub Returns : Option (Result (TarScanner × Bool)) → TarScanner → List ℕ → Type 0
  Returns o s c = (x : Result (TarScanner × Bool)) × (o ≡ some x) × Runs s c x

  Returns-step :
      (again : TarScanner → List ℕ → Option (Result (TarScanner × Bool))) (s : TarScanner)
      (c : List ℕ) (st : Step) (r : Stepped)
      → r.step ≡ st
      → round s c ≡ ok r
      → (r.step ≡ continue → Returns (again r.scanner r.chunk) r.scanner r.chunk)
      → Returns (resume_step again st r) s c
  Returns-step again s c need_more r w e k = (ok (r.scanner, false), refl, waits r e w)
  Returns-step again s c finished r w e k = (ok (r.scanner, true), refl, ends r e w)
  Returns-step again s c continue r w e k = let (x, p, run) = k w in (x, p, goes r e w run)

  returns :
      (again : TarScanner → List ℕ → Option (Result (TarScanner × Bool))) (s : TarScanner)
      (c : List ℕ) (r : Result Stepped)
      → round s c ≡ r
      → ((t : Stepped)
          → r ≡ ok t
          → t.step ≡ continue
          → Returns (again t.scanner t.chunk) t.scanner t.chunk)
      → Returns (resume again r) s c
  returns again s c (err e) w k = (err e, refl, fails e w)
  returns again s c (ok r) w k = Returns-step again s c r.step r refl w (k r refl)

  -- With enough fuel the loop returns, and what it returns is a run.
  pub feed_loop-Returns :
      (fuel : ℕ) (s : TarScanner) (c : List ℕ)
      → IsPartial s
      → measure s c < fuel
      → Returns (feed_loop crate fuel s c) s c
  unfolding feed_loop
  feed_loop-Returns zero s c h m = absurd (omega arith)
  feed_loop-Returns (suc fuel) s c h m =
      returns (feed_loop crate fuel) s c (round s c) refl λ t e w.
        let a = subst (Advances s c) e (round_in-Advances s.state s c refl h) in
        feed_loop-Returns fuel t.scanner t.chunk a.0 (omega (arith, a.1 w))

  -- `feed` always returns.
  pub feed-Returns : (s : TarScanner) (c : List ℕ) → IsPartial s → Returns (feed crate s c) s c
  unfolding feed
  feed-Returns s c h = feed_loop-Returns (2 * length c + 2) s c h (measure-lt s c)

  -- A run is what `feed` returns.
  pub feed_loop-of_Runs :
      (fuel : ℕ) {s : TarScanner} {c : List ℕ} {x : Result (TarScanner × Bool)}
      → Runs s c x
      → IsPartial s
      → measure s c < fuel
      → feed_loop crate fuel s c ≡ some x
  unfolding feed_loop
  feed_loop-of_Runs zero run h m = absurd (omega arith)
  feed_loop-of_Runs (suc fuel) (fails e p) h m = rw p
  feed_loop-of_Runs (suc fuel) (waits r p w) h m = rw (p, w)
  feed_loop-of_Runs (suc fuel) (ends r p w) h m = rw (p, w)
  feed_loop-of_Runs (suc fuel) {s} {c} (goes r p w run) h m =
      let a = subst (Advances s c) p (round_in-Advances s.state s c refl h) in
      rw (p, w) (feed_loop-of_Runs fuel run a.0 (omega (arith, a.1 w)))
