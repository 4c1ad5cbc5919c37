-- ===== src/Tar/Append.antt =====
-- `TarScanner::feed` does not see where the archive was cut (tar.rs).
use sandbox_driver.Base.{
  ℕ, ◌+◌, ◌*◌, ◌≡◌, ◌≢◌, refl, sym, ap, subst, ◌∙◌, inl, inr, Bool, true, false, Option, some, List,
  ◌++◌, length, arith,
}
use sandbox_driver.Error.{Result, ok, err, ok_injective}
use sandbox_driver.Tar.{TarCrate, TarScanner, Step, continue, Stepped, feed}
use sandbox_driver.Tar.Content.{Same}
use sandbox_driver.Tar.Runs.{
  round, round-IsPartial, Runs, fails, waits, ends, goes, IsPartial, feed_loop-of_Runs,
  feed-Returns, measure-lt,
}
use sandbox_driver.Tar.Halves.{extend}
use sandbox_driver.Tar.Split.{whole, part, split_in}

module _ (crate : TarCrate) where
  transfer :
      {s t : TarScanner} {b c : List ℕ} {x : Result (TarScanner × Bool)}
      → round crate s c ≡ round crate t b
      → Runs crate t b x
      → Runs crate s c x
  transfer q (fails e p) = fails e (q ∙ p)
  transfer q (waits r p w) = waits r (q ∙ p) w
  transfer q (ends r p w) = ends r (q ∙ p) w
  transfer q (goes r p w run) = goes r (q ∙ p) w run

  transfer_same :
      {s t : TarScanner} {b c : List ℕ} {x : Result (TarScanner × Bool)} (u v : Stepped)
      → round crate s c ≡ ok u
      → round crate t b ≡ ok v
      → Same u v
      → v.step ≢ continue
      → Runs crate t b x
      → Runs crate s c x
  transfer_same u v q k e n (fails f p) = absurd (ground arith)
  transfer_same {s} {t} {b} {c} u v q k e n (waits r p w) =
      let i : v ≡ r = ok_injective (sym k ∙ p) in
      let g : u.scanner ≡ r.scanner = e.0 ∙ ap (λ (y : Stepped). y.scanner) i in
      subst (λ m. Runs crate s c (ok (m, false))) g (waits u q (cc))
  transfer_same {s} {t} {b} {c} u v q k e n (ends r p w) =
      let i : v ≡ r = ok_injective (sym k ∙ p) in
      let g : u.scanner ≡ r.scanner = e.0 ∙ ap (λ (y : Stepped). y.scanner) i in
      subst (λ m. Runs crate s c (ok (m, true))) g (ends u q (cc))
  transfer_same u v q k e n (goes r p w run) =
      let i : v ≡ r = ok_injective (sym k ∙ p) in absurd (n (ap (λ (y : Stepped). y.step) i ∙ w))

  -- What `b` adds to a run over `a`: nothing where it ended or failed.
  abbrev After : Result (TarScanner × Bool) → List ℕ → Result (TarScanner × Bool) → Type 0
  After (err e) b x = x ≡ err e
  After (ok (t, true)) b x = x ≡ ok (t, true)
  After (ok (t, false)) b x = Runs crate t b x

  steps_differ :
      (s : TarScanner) (a : List ℕ) {u v : Step} (r t : Stepped)
      → round crate s a ≡ ok r
      → round crate s a ≡ ok t
      → r.step ≡ u
      → t.step ≡ v
      → u ≡ v
  steps_differ s a r t p q w v = sym w ∙ ap (λ (m : Stepped). m.step) (ok_injective (sym p ∙ q)) ∙ v

  abbrev pub Leaves : Result (TarScanner × Bool) → Type 0
  Leaves (err e) = Unit
  Leaves (ok (t, f)) = IsPartial t

  pub run-Leaves :
      {s : TarScanner} {a : List ℕ} (x : Result (TarScanner × Bool))
      → Runs crate s a x
      → IsPartial s
      → Leaves x
  run-Leaves x (fails e p) h = tt
  run-Leaves {s} {a} x (waits r p w) h = round-IsPartial crate s a r h p
  run-Leaves {s} {a} x (ends r p w) h = round-IsPartial crate s a r h p
  run-Leaves {s} {a} x (goes r p w run) h = run-Leaves x run (round-IsPartial crate s a r h p)

  runs_append :
      {s : TarScanner} {a : List ℕ} {y : Result (TarScanner × Bool)} (b : List ℕ)
      (x : Result (TarScanner × Bool))
      → Runs crate s a y
      → IsPartial s
      → After y b x
      → Runs crate s (a ++ b) x
  runs_append {s} {a} b x (fails e p) h k = elim (split_in crate s.state s a b refl h) [
    | whole q _ ↦ subst (Runs crate s (a ++ b)) (sym k) (fails e (q ∙ ap (extend b) p))
    | part r q _ _ _ ↦ absurd (ground arith)
  ]
  runs_append {s} {a} b x (waits r p w) h k = elim (split_in crate s.state s a b refl h) [
    | whole _ n ↦ absurd (n r p w)
    | part t q _ _ z ↦
        let run =
          subst (λ m. Runs crate m b x) (ap (λ (m : Stepped). m.scanner) (ok_injective (sym p ∙ q)))
            k in
        elim z [ inl m ↦ transfer m run | inr (u, v, m, n, e, g) ↦ transfer_same u v m n e g run ]
  ]
  runs_append {s} {a} b x (ends r p w) h k = elim (split_in crate s.state s a b refl h) [
    | whole q _ ↦
        subst (Runs crate s (a ++ b)) (sym k)
          (ends (record r { chunk = r.chunk ++ b }) (q ∙ ap (extend b) p) w)
    | part t q v _ _ ↦ absurd (ground (arith, steps_differ s a r t p q w v))
  ]
  runs_append {s} {a} b x (goes r p w run) h k = elim (split_in crate s.state s a b refl h) [
    | whole q _ ↦
        goes (record r { chunk = r.chunk ++ b }) (q ∙ ap (extend b) p) w
          (runs_append b x run (round-IsPartial crate s a r h p) k)
    | part t q v _ _ ↦ absurd (ground (arith, steps_differ s a r t p q w v))
  ]

  -- What `feed` gives on a chunk, and then on a second one unless it was done.
  abbrev pub then_feed :
      Option (Result (TarScanner × Bool)) → List ℕ → Option (Result (TarScanner × Bool))
  then_feed (some (ok (s, false))) b = feed crate s b
  then_feed y b = y

  pub run_feeds :
      {s : TarScanner} {c : List ℕ} {x : Result (TarScanner × Bool)}
      → Runs crate s c x
      → IsPartial s
      → feed crate s c ≡ some x
  unfolding feed
  run_feeds {s} {c} run h = feed_loop-of_Runs crate (2 * length c + 2) run h (measure-lt s c)

  after_feed :
      (s : TarScanner) (a b : List ℕ) (y : Result (TarScanner × Bool))
      → Runs crate s a y
      → IsPartial s
      → feed crate s (a ++ b) ≡ then_feed (some y) b
  after_feed s a b (err e) run h = run_feeds (runs_append b (err e) run h refl) h
  after_feed s a b (ok (t, true)) run h = run_feeds (runs_append b (ok (t, true)) run h refl) h
  after_feed s a b (ok (t, false)) run h =
      let (x, e, more) = feed-Returns crate t b (run-Leaves (ok (t, false)) run h) in
      run_feeds (runs_append b x run h more) h ∙ sym e

  -- Feeding two chunks is feeding one that is the two together: the scanner goes on with the
  -- second chunk unless it was done or had failed on the first. The scanner holds less than a
  -- whole header block, which every scanner that `new` and `feed` give does.
  pub feed-append :
      (s : TarScanner) (a b : List ℕ)
      → IsPartial s
      → feed crate s (a ++ b) ≡ then_feed (feed crate s a) b
  feed-append s a b h =
      let (y, e, run) = feed-Returns crate s a h in
      after_feed s a b y run h ∙ ap (λ o. then_feed o b) (sym e)
