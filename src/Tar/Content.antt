-- ===== src/Tar/Content.antt =====
-- `TarScanner::feed_content` over a chunk in two pieces (tar.rs).
use sandbox_driver.Base.{
  ℕ, ◌+◌, ◌-◌, ◌≤◌, ◌<◌, min, ◌≡◌, ◌≢◌, refl, sym, ap, ◌∙◌, ◌⊎◌, inl, inr, Bool, true, false, ◌||◌,
  List, ◌++◌, append_assoc, length, length-append, take, leb, leb→le, arith, if◌then◌else◌,
}
use sandbox_driver.Tar.{
  TarCrate, TarScanner, content, done, need_more, continue, finished, Stepped, feed_content, end,
}
use sandbox_driver.Tar.Window.{
  window, window-append, window-cut, window-past, kept_window, take-all, take-beyond, take-within,
}

-- How much of the chunk belongs to the file, and what of it is wanted.
abbrev pub reach : List ℕ → ℕ → ℕ → ℕ
reach c position size = min (length c) (size - position)

abbrev pub wanted_of : TarScanner → List ℕ → ℕ → ℕ → List ℕ
wanted_of s c position size =
    window (s.offset - position) (end s - position) (take (reach c position size) c)

abbrev pub stops : TarScanner → ℕ → ℕ → Bool
stops s size position = leb size position || leb (end s) position

-- What `feed_content` returns, with what is kept and the new position.
abbrev pub outcome_at : TarScanner → List ℕ → ℕ → ℕ → List ℕ → Stepped
outcome_at s kept position size c =
    if stops s size position
    then record {
      scanner = record s { collected = kept; state = done };
      chunk = c;
      step = finished;
    }
    else record {
      scanner = record s { collected = kept; state = content position size };
      chunk = c;
      step = need_more;
    }

abbrev pub outcome : TarScanner → List ℕ → ℕ → ℕ → Stepped
outcome s c position size =
    outcome_at s (s.collected ++ wanted_of s c position size) (position + reach c position size)
      size c

module _ (crate : TarCrate) where
  pub feed_content-outcome :
      (s : TarScanner) (c : List ℕ) (position size : ℕ)
      → feed_content crate s c position size ≡ outcome s c position size
  unfolding feed_content
  feed_content-outcome s c position size =
      rw
        (kept_window s.collected (s.offset - position) (end s - position) (reach c position size) c)

-- The scanner that has seen `a` and waits for more.
abbrev pub seen : TarScanner → List ℕ → ℕ → ℕ → TarScanner
seen s a position size = record s {
  collected = s.collected ++ window (s.offset - position) (end s - position) a;
  state = content (position + length a) size;
}

abbrev pub Waits : TarScanner → List ℕ → ℕ → ℕ → Type 0
Waits s a position size = stops s size (position + reach a position size) ≡ false

Waits-reach :
    (s : TarScanner) (a : List ℕ) (position size : ℕ)
    → Waits s a position size
    → (reach a position size ≡ length a) × (length a < size - position)
Waits-reach s a position size h = ground arith

pub outcome-Waits :
    (s : TarScanner) (a : List ℕ) (position size : ℕ)
    → Waits s a position size
    → outcome s a position size
      ≡ record { scanner = seen s a position size; chunk = a; step = need_more }
outcome-Waits s a position size h =
    rw (h, (Waits-reach s a position size h).0, take-all (length a) a (omega arith))

-- The bytes of both pieces that are wanted.
pub wanted_part :
    (s : TarScanner) (a b : List ℕ) (position size : ℕ)
    → Waits s a position size
    → s.collected ++ wanted_of s (a ++ b) position size
      ≡ (seen s a position size).collected
        ++ wanted_of (seen s a position size) b (position + length a) size
wanted_part s a b position size h =
    let n = reach (a ++ b) position size in
    let k = reach b (position + length a) size in
    let e : n ≡ length a + k =
      omega (arith, length-append a b, (Waits-reach s a position size h).1) in
    let f : s.offset - position - length a ≡ s.offset - (position + length a) = omega arith in
    let t : end s - position - length a ≡ end s - (position + length a) = omega arith in
    ap (λ (x : List ℕ). s.collected ++ window (s.offset - position) (end s - position) x)
      (take-beyond n k a b e)
    ∙ ap (◌++◌ s.collected) (window-append (s.offset - position) (end s - position) a (take k b))
    ∙ rw (f, t) (sym (append_assoc s.collected _ _))

-- What comes of a round, but for the chunk.
abbrev pub Same : Stepped → Stepped → Type 0
Same x y = (x.scanner ≡ y.scanner) × (x.step ≡ y.step)

outcome_at-Same :
    (s t : TarScanner) (kept : List ℕ) (position size : ℕ) (c d : List ℕ)
    → t ≡ record s { collected = t.collected; state = t.state }
    → Same (outcome_at s kept position size c) (outcome_at t kept position size d)
outcome_at-Same s t kept position size c d e = ground arith

-- A second piece continues where the first one waits.
pub outcome_part :
    (s : TarScanner) (a b : List ℕ) (position size : ℕ)
    → Waits s a position size
    → Same
        (outcome s (a ++ b) position size)
        (outcome (seen s a position size) b (position + length a) size)
outcome_part s a b position size h =
    let k = reach b (position + length a) size in
    let e : position + reach (a ++ b) position size ≡ position + length a + k =
      omega (arith, length-append a b, (Waits-reach s a position size h).1) in
    rw (wanted_part s a b position size h, e)
      (outcome_at-Same s (seen s a position size) _ (position + length a + k) size (a ++ b) b refl)

or_cases : (x y : Bool) → (x || y) ≡ true → (x ≡ true) ⊎ (y ≡ true)
or_cases true y h = inl refl
or_cases false y h = inr h

wanted_whole :
    (s : TarScanner) (a b : List ℕ) (position size : ℕ)
    → stops s size (position + reach a position size) ≡ true
    → wanted_of s (a ++ b) position size ≡ wanted_of s a position size
wanted_whole s a b position size h =
    let f = s.offset - position in
    let t = end s - position in
    let n = reach (a ++ b) position size in
    let k = reach a position size in
    elim (or_cases (leb size (position + k)) (leb (end s) (position + k)) h) [
      | inl p ↦
          let e : n ≡ k = omega (arith, leb→le size (position + k) p, length-append a b) in
          rw e (ap (window f t) (take-within k a b (omega arith)))
      | inr p ↦
          let q : t ≤ k = omega (arith, leb→le (end s) (position + k) p) in
          window-cut f t n (a ++ b) (omega (arith, q, length-append a b))
          ∙ window-past f t a b (omega (arith, q))
          ∙ sym (window-cut f t k a q)
    ]

stops_mono : (s : TarScanner) (size p q : ℕ) → p ≤ q → stops s size p ≡ true → stops s size q ≡ true
stops_mono s size p q h e = ground arith

-- Where the first piece ends the read, the second is not looked at.
pub outcome_whole :
    (s : TarScanner) (a b : List ℕ) (position size : ℕ)
    → stops s size (position + reach a position size) ≡ true
    → outcome s (a ++ b) position size ≡ record {
      scanner = (outcome s a position size).scanner;
      chunk = (outcome s a position size).chunk ++ b;
      step = (outcome s a position size).step;
    }
outcome_whole s a b position size h =
    let e : position + reach a position size ≤ position + reach (a ++ b) position size =
      omega (arith, length-append a b) in
    rw (stops_mono s size _ _ e h, h, wanted_whole s a b position size h)

-- A content round never goes on, and where it stops it ends the read.
pub outcome_at-step :
    (s : TarScanner) (kept : List ℕ) (position size : ℕ) (c : List ℕ)
    → (outcome_at s kept position size c).step ≢ continue
outcome_at-step s kept position size c h = ground arith

pub outcome-ends :
    (s : TarScanner) (a : List ℕ) (position size : ℕ)
    → stops s size (position + reach a position size) ≡ true
    → (outcome s a position size).step ≡ finished
outcome-ends s a position size h = rw h
