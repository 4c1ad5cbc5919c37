-- ===== src/Sanitize/Clean.antt =====
-- What bytes the sanitizer lets through (crates/sandbox-driver/src/sanitize.rs).
use sandbox_driver.Base.{ℕ, false, ◌≤◌, ◌≡◌, ◌≢◌, refl, ◌⊎◌, List, [], ◌∷◌, arith, All, All-append}
use sandbox_driver.Sanitize.{
  OutputSanitization, raw, strip_ansi, strip_all, OutputSanitizer, State, escape, process_c1,
  ground_byte, ground_text, process_ground, process_escape, process_escape_intermediate,
  process_csi, process_osc, process_osc_escape, process_osc_c2, process_control_string,
  process_control_string_escape, process_control_string_c2, process_in, process_all, push, finish,
  sanitize, new,
}

-- Not ESC; under `strip_all`, no C0 control and no DEL but tab, line feed and carriage return.
abbrev pub IsClean : OutputSanitization → ℕ → Type 0
IsClean raw b = Unit
IsClean strip_ansi b = b ≢ 0x1b
IsClean strip_all b = (b ≢ 0x7f) × ((0x20 ≤ b) ⊎ (b ≡ b'\t') ⊎ (b ≡ b'\n') ⊎ (b ≡ b'\r'))

-- A step under policy `p` keeps the policy and appends clean bytes.
abbrev pub Stepped : OutputSanitization → OutputSanitizer × List ℕ → Type 0
Stepped p (t, out) = (t.policy ≡ p) × All (IsClean p) out

clean_byte :
    (s : OutputSanitizer) (p : OutputSanitization) (b : ℕ)
    → s.policy ≡ p
    → p ≢ raw
    → Stepped p (ground_byte s b)
unfolding ground_byte
clean_byte s raw b e h = absurd (h refl)
clean_byte s strip_ansi b e h = ground arith
clean_byte s strip_all b e h = ground arith

clean_text :
    (s : OutputSanitizer) (p : OutputSanitization) (b : ℕ)
    → s.policy ≡ p
    → p ≢ raw
    → Stepped p (ground_text s b)
unfolding ground_text
clean_text s raw b e h = absurd (h refl)
clean_text s strip_ansi b e h =
    ground
      (arith, clean_byte s strip_ansi b, clean_byte (record s { utf8_remaining = 0 }) strip_ansi b)
clean_text s strip_all b e h =
    ground
      (arith, clean_byte s strip_all b, clean_byte (record s { utf8_remaining = 0 }) strip_all b)

clean_ground :
    (s : OutputSanitizer) (p : OutputSanitization) (b : ℕ)
    → s.policy ≡ p
    → p ≢ raw
    → Stepped p (process_ground s b)
unfolding process_ground process_c1
clean_ground s raw b e h = absurd (h refl)
clean_ground s strip_ansi b e h =
    ground
      (arith, clean_text s strip_ansi b, clean_text (record s { pending_c2 = false }) strip_ansi b)
clean_ground s strip_all b e h =
    ground
      (arith, clean_text s strip_all b, clean_text (record s { pending_c2 = false }) strip_all b)

pub clean_step :
    (st : State) (s : OutputSanitizer) (p : OutputSanitization) (b : ℕ)
    → s.policy ≡ p
    → p ≢ raw
    → Stepped p (process_in st s b)
unfolding process_in
clean_step State.ground s p b e h = clean_ground s p b e h
clean_step escape s p b e h =
    unfold process_escape in ground (arith, clean_ground (record s { state = State.ground }) p b)
clean_step _ s p b e h =
    unfold process_escape_intermediate process_csi process_osc process_osc_escape process_osc_c2
      process_control_string process_control_string_escape process_control_string_c2 in
    ground arith

pub clean_all :
    (s : OutputSanitizer) (p : OutputSanitization) (bs : List ℕ)
    → s.policy ≡ p
    → p ≢ raw
    → Stepped p (process_all s bs)
unfolding process_all
clean_all s p [] e h = (e, tt)
clean_all s p (b ∷ bs) e h =
    let now = clean_step s.state s p b e h in
    let later = clean_all (process_in s.state s b).0 p bs now.0 h in
    (later.0, All-append (IsClean p) _ _ now.1 later.1)

-- Whatever the input, a policy other than `raw` returns no ESC byte, and `strip_all` no C0 control and
-- no DEL but tab, line feed and carriage return.
pub sanitize-IsClean :
    (p : OutputSanitization) (bs : List ℕ) → p ≢ raw → All (IsClean p) (sanitize p bs)
unfolding sanitize push finish
sanitize-IsClean raw bs h = absurd (h refl)
sanitize-IsClean strip_ansi bs h =
    All-append _ _ _ (clean_all (new strip_ansi) strip_ansi bs refl h).1
      (ground (arith, clean_all (new strip_ansi) strip_ansi bs refl h))
sanitize-IsClean strip_all bs h =
    All-append _ _ _ (clean_all (new strip_all) strip_all bs refl h).1
      (ground (arith, clean_all (new strip_all) strip_all bs refl h))
