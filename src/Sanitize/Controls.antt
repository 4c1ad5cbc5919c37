-- ===== src/Sanitize/Controls.antt =====
-- The control characters in what the sanitizer returns (crates/sandbox-driver/src/sanitize.rs). Which
-- bytes continue a character is said by a reading of the output, that knows nothing of the sanitizer.
use sandbox_driver.Base.{
  ℕ, ◌-◌, ◌≤◌, ◌<◌, ◌≡◌, ◌≢◌, refl, sym, ◌∙◌, ◌⊎◌, inl, inr, true, List, [], ◌∷◌, ◌++◌, arith, All,
  within, if◌then◌else◌, Bool-cases, drop, subst,
}
use sandbox_driver.Sanitize.{
  OutputSanitization, raw, strip_ansi, strip_all, OutputSanitizer, State, escape, process_ground,
  process_in, process_all, process, push, finish, sanitize, new,
}
use sandbox_driver.Sanitize.Clean.{IsClean, clean_step, sanitize-IsClean}
use sandbox_driver.Sanitize.Again.{finish_last}
use sandbox_driver.Sanitize.Shape.{Shape, Shape-text}
use sandbox_driver.Sanitize.Follow.{HeldShape, shape_held}
use sandbox_driver.Sanitize.Tidy.{
  IsTidy, IsTidy-step, ground_plain, Quiet, Quiet-escape, Quiet-step,
}

-- How many continuation bytes of a UTF-8 character may follow a byte, from how many may precede it.
abbrev pub to_come : ℕ → ℕ → ℕ
to_come k b =
    if within 0x80 0xbf b
    then k - 1
    else if within 0xc2 0xdf b
    then 1
    else if within 0xe0 0xef b
    then 2
    else if within 0xf0 0xf4 b
    then 3
    else 0

-- A byte that is no control from 0x80 to 0x9f: neither one by itself nor the second byte of an encoded
-- one. It comes behind `last`, and `k` continuation bytes may come.
abbrev pub IsNoHighControl : ℕ → ℕ → ℕ → Type 0
IsNoHighControl k last b = (b < 0x80) ⊎ (0x9f < b) ⊎ ((0 < k) × (last ≢ 0xc2))

abbrev pub HasNoHighControls : ℕ → ℕ → List ℕ → Type 0
HasNoHighControls k last [] = Unit
HasNoHighControls k last (b ∷ out) =
    IsNoHighControl k last b × HasNoHighControls (to_come k b) b out

-- No ESC; under `strip_all`, no C0 control but tab, line feed and carriage return, no DEL, and no control
-- from 0x80 to 0x9f.
abbrev pub HasNoControls : OutputSanitization → List ℕ → Type 0
HasNoControls raw out = Unit
HasNoControls strip_ansi out = All (λ b. b ≢ 0x1b) out
HasNoControls strip_all out = All (IsClean strip_all) out × HasNoHighControls 0 0 out

-- A reader behind some output, and the sanitizer: it waits for no more bytes than the reader.
abbrev Tracks : OutputSanitizer → ℕ → ℕ → Type 0
Tracks s k last = (s.utf8_remaining ≤ k) × ((last ≡ 0xc2) → s.utf8_remaining ≡ 0)

abbrev Reads : ℕ → ℕ → OutputSanitizer → List ℕ → Type 0
Reads k last s [] = Tracks s k last
Reads k last s (b ∷ out) = IsNoHighControl k last b × Reads (to_come k b) b s out

Reads-Shape :
    (r k last b : ℕ) (s : OutputSanitizer) (out : List ℕ)
    → r ≤ k
    → ((last ≡ 0xc2) → r ≡ 0)
    → Shape strip_all r b (s, out)
    → Reads k last s out
Reads-Shape r k last b s out h c (inl (e, z)) = rw e (omega arith, λ q. z)
Reads-Shape r k last b s out h c (inr (e, m, z, w)) =
    rw e (ground arith, (ground arith, λ q. ground arith))

Reads-held :
    (k last b : ℕ) (s : OutputSanitizer) (out : List ℕ)
    → HeldShape strip_all b (s, out)
    → Reads k last s out
Reads-held k last b s out (inl (e, z)) = rw e (omega arith, λ q. z)
Reads-held k last b s out (inr (e, m)) =
    subst (λ o. Reads k last s o) (sym e)
      (inr (inl (omega arith)), Reads-Shape 0 1 0xc2 b s (drop 1 out) (omega arith) (λ q. refl) m)

Reads-ground :
    (k last b : ℕ) (s : OutputSanitizer)
    → s.policy ≡ strip_all
    → (s.pending_c2 ≡ true → s.utf8_remaining ≡ 0)
    → Tracks s k last
    → Reads k last (process_ground s b).0 (process_ground s b).1
Reads-ground k last b s e h (r, c) = elim (Bool-cases s.pending_c2) [
  | inl p ↦ Reads-held k last b _ _ (shape_held strip_all s b (λ q. cc) e p (h p))
  | inr p ↦
      rw (ground_plain s b p)
        (Reads-Shape s.utf8_remaining k last b _ _ r c (Shape-text strip_all s b (λ q. cc) e p))
]

Reads-Quiet :
    (k last : ℕ) (s s' : OutputSanitizer) (out : List ℕ)
    → s.utf8_remaining ≡ 0
    → Quiet s (s', out)
    → Reads k last s' out
Reads-Quiet k last s s' out z (e, r) = rw e (omega arith, λ q. r ∙ z)

Reads-step :
    (st : State) (k last b : ℕ) (s : OutputSanitizer)
    → s.state ≡ st
    → s.policy ≡ strip_all
    → IsTidy s
    → Tracks s k last
    → Reads k last (process_in st s b).0 (process_in st s b).1
unfolding process_in
Reads-step State.ground k last b s w e h t = Reads-ground k last b s e h.held t
Reads-step escape k last b s w e h t = elim (Quiet-escape s b) [
  | inl q ↦ Reads-Quiet k last s _ _ (h.outside (λ g. cc)).0 q
  | inr q ↦ rw q (Reads-ground k last b (record s { state = State.ground }) e h.held t)
]
Reads-step other k last b s w e h t =
    Reads-Quiet k last s _ _ (h.outside (λ g. cc)).0 (Quiet-step other s b (λ g. cc) (λ g. cc))

-- What follows is read from where the reader stands.
Reads-append :
    (k last : ℕ) (s t : OutputSanitizer) (out more : List ℕ)
    → Reads k last s out
    → ((k l : ℕ) → Tracks s k l → Reads k l t more)
    → Reads k last t (out ++ more)
Reads-append k last s t [] more h next = next k last h
Reads-append k last s t (b ∷ out) more (a, h) next =
    (a, Reads-append (to_come k b) b s t out more h next)

Reads-all :
    (bs : List ℕ) (k last : ℕ) (s : OutputSanitizer)
    → s.policy ≡ strip_all
    → IsTidy s
    → Tracks s k last
    → Reads k last (process_all s bs).0 (process_all s bs).1
unfolding process_all
Reads-all [] k last s e h t = t
Reads-all (b ∷ bs) k last s e h t =
    let (s', out) = process s b in
    Reads-append k last s' (process_all s' bs).0 out (process_all s' bs).1
      (Reads-step s.state k last b s refl e h t)
      (λ k l w.
        Reads-all bs k l s' (clean_step s.state s strip_all b e (λ q. cc)).0
          (IsTidy-step s.state s b refl h) w)

Reads-HasNoHighControls :
    (k last : ℕ) (s : OutputSanitizer) (out : List ℕ)
    → Reads k last s out
    → HasNoHighControls k last out
Reads-HasNoHighControls k last s [] h = tt
Reads-HasNoHighControls k last s (b ∷ out) (a, h) =
    (a, Reads-HasNoHighControls (to_come k b) b s out h)

finish-Reads :
    (k last : ℕ) (s : OutputSanitizer) → Tracks s k last → Reads k last (new strip_all) (finish s).1
finish-Reads k last s h = elim (finish_last s) [
  | inl e ↦ rw e (omega arith, λ q. refl)
  | inr e ↦ rw e (inr (inl (omega arith)), (omega arith, λ q. refl))
]

-- Whatever the input, a policy other than `raw` returns no ESC byte, and `strip_all` no C0 control but
-- tab, line feed and carriage return, no DEL, and no control from 0x80 to 0x9f, as a byte of its own or
-- in UTF-8.
pub sanitize-HasNoControls :
    (p : OutputSanitization) (bs : List ℕ) → HasNoControls p (sanitize p bs)
unfolding sanitize push
sanitize-HasNoControls raw bs = tt
sanitize-HasNoControls strip_ansi bs = sanitize-IsClean strip_ansi bs (λ h. cc)
sanitize-HasNoControls strip_all bs =
    let s = (process_all (new strip_all) bs).0 in
    (
      sanitize-IsClean strip_all bs (λ h. cc),
      Reads-HasNoHighControls 0 0 (new strip_all) _ (
          Reads-append 0 0 s (new strip_all) (process_all (new strip_all) bs).1 (finish s).1
            (Reads-all bs 0 0 (new strip_all) refl
              (record { held = λ h. refl; outside = λ h. absurd (h refl) })
              (omega arith, λ q. refl))
            (λ k l t. finish-Reads k l s t)),
    )
