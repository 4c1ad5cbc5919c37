-- ===== src/Sanitize/Kept.antt =====
-- The sanitizer only drops bytes (crates/sandbox-driver/src/sanitize.rs).
use mathlib.Core.List.{Sublist, nil-sublist, sublist-append_left, sublist-append_right}
use mathlib.Core.List.Sublist
use sandbox_driver.Base.{
  ℕ, ◌≡◌, refl, ◌⊎◌, inl, inr, false, List, [], ◌∷◌, ◌++◌, append_assoc, append-nil, arith,
  if◌then◌else◌,
}
use sandbox_driver.Sanitize.{
  OutputSanitization, raw, strip_ansi, strip_all, OutputSanitizer, State, escape, process_c1,
  ground_byte, ground_text, process_ground, process_escape, process_escape_intermediate,
  process_csi, process_osc, process_osc_escape, process_osc_c2, process_control_string,
  process_control_string_escape, process_control_string_c2, process_in, process, process_all, push,
  finish, sanitize, new,
}

-- The byte that is held back.
abbrev pub pend : OutputSanitizer → List ℕ
pend s = if s.pending_c2 then 0xc2 ∷ [] else []

-- What a step returns and holds back is what was held back, the byte, both or nothing.
abbrev Kept : OutputSanitizer → ℕ → OutputSanitizer × List ℕ → Type 0
Kept s b (t, out) =
    (out ++ pend t ≡ [])
    ⊎ (out ++ pend t ≡ pend s)
    ⊎ (out ++ pend t ≡ b ∷ [])
    ⊎ (out ++ pend t ≡ pend s ++ b ∷ [])

Kept-byte : (s : OutputSanitizer) (b : ℕ) → s.pending_c2 ≡ false → Kept s b (ground_byte s b)
unfolding ground_byte
Kept-byte s b e = ground arith

Kept-text : (s : OutputSanitizer) (b : ℕ) → s.pending_c2 ≡ false → Kept s b (ground_text s b)
unfolding ground_text
Kept-text s b e = ground (arith, Kept-byte s b e, Kept-byte (record s { utf8_remaining = 0 }) b e)

Kept-ground : (s : OutputSanitizer) (b : ℕ) → Kept s b (process_ground s b)
unfolding process_ground process_c1
Kept-ground s b = ground (arith, Kept-text s b, Kept-text (record s { pending_c2 = false }) b refl)

Kept-step : (st : State) (s : OutputSanitizer) (b : ℕ) → Kept s b (process_in st s b)
unfolding process_in
Kept-step State.ground s b = Kept-ground s b
Kept-step escape s b =
    unfold process_escape in ground (arith, Kept-ground (record s { state = State.ground }) b)
Kept-step _ s b =
    unfold process_escape_intermediate process_csi process_osc process_osc_escape process_osc_c2
      process_control_string process_control_string_escape process_control_string_c2 in
    ground arith

Kept-sublist :
    (held out : List ℕ) (b : ℕ)
    → (out ≡ []) ⊎ (out ≡ held) ⊎ (out ≡ b ∷ []) ⊎ (out ≡ held ++ b ∷ [])
    → Sublist out (held ++ b ∷ [])
Kept-sublist held out b (inl e) = rw e (nil-sublist (held ++ b ∷ []))
Kept-sublist held out b (inr (inl e)) = rw e (sublist-append_left held (b ∷ []))
Kept-sublist held out b (inr (inr (inl e))) = rw e (sublist-append_right held (b ∷ []))
Kept-sublist held out b (inr (inr (inr e))) = rw e (Sublist.refl (held ++ b ∷ []))

glue :
    (out r pr pt bs ps : List ℕ) (b : ℕ)
    → Sublist (out ++ pt) (ps ++ b ∷ [])
    → Sublist (r ++ pr) (pt ++ bs)
    → Sublist ((out ++ r) ++ pr) (ps ++ b ∷ bs)
glue out r pr pt bs ps b h k = rw (append_assoc out r pr) (
    Sublist.trans (Sublist.append (Sublist.refl out) k) (
      rw (← append_assoc out pt bs)
        (rw (append_assoc ps (b ∷ []) bs) at (Sublist.append h (Sublist.refl bs)))))

-- Held back and input, in order, hold all that is returned and still held back.
kept_all :
    (s : OutputSanitizer) (bs : List ℕ)
    → Sublist ((process_all s bs).1 ++ pend (process_all s bs).0) (pend s ++ bs)
unfolding process_all
kept_all s [] = rw append-nil (Sublist.refl _)
kept_all s (b ∷ bs) =
    let (t, out) = process s b in
    glue out _ _ (pend t) bs (pend s) b (Kept-sublist (pend s) _ b (Kept-step s.state s b))
      (kept_all (process s b).0 bs)

finish_cases : (s : OutputSanitizer) → ((finish s).1 ≡ []) ⊎ ((finish s).1 ≡ pend s)
unfolding finish
finish_cases s = ground arith

-- `finish` returns at most the byte that was held back.
finish-sublist : (s : OutputSanitizer) → Sublist (finish s).1 (pend s)
finish-sublist s = elim (finish_cases s) [
  | inl e ↦ rw e (nil-sublist (pend s))
  | inr e ↦ rw e (Sublist.refl (pend s))
]

finished :
    (p : OutputSanitization) (bs : List ℕ)
    → Sublist ((process_all (new p) bs).1 ++ (finish (process_all (new p) bs).0).1) bs
finished p bs =
    Sublist.trans (Sublist.append (Sublist.refl _) (finish-sublist (process_all (new p) bs).0))
      (kept_all (new p) bs)

-- What comes back is the input with bytes left out: nothing is added, changed or reordered.
pub sanitize-sublist : (p : OutputSanitization) (bs : List ℕ) → Sublist (sanitize p bs) bs
unfolding sanitize push
sanitize-sublist raw bs = unfold finish in rw append-nil (Sublist.refl bs)
sanitize-sublist strip_ansi bs = finished strip_ansi bs
sanitize-sublist strip_all bs = finished strip_all bs
