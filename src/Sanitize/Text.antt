-- ===== src/Sanitize/Text.antt =====
-- Well-formed text passes the sanitizer (crates/sandbox-driver/src/sanitize.rs).
use mathlib.Core.List.{flatten}
use sandbox_driver.Base.{
  ℕ, suc, ◌≤◌, ◌≡◌, refl, ◌⊎◌, inl, inr, List, [], ◌∷◌, append-nil, arith, All,
}
use sandbox_driver.Sanitize.Chunks.{process_all-append}
use sandbox_driver.Sanitize.{
  OutputSanitization, raw, strip_ansi, strip_all, OutputSanitizer, ground_byte, ground_text,
  process_ground, process_in, process, process_all, push, finish, sanitize, new,
}

abbrev Between : ℕ → ℕ → ℕ → Type 0
Between lo hi b = (lo ≤ b) × (b ≤ hi)

-- The UTF-8 encoding of a character that is not a control character, by its length in bytes: a
-- printable ASCII character, one from U+00A0, from U+0800, from U+10000.
pub data IsChar : List ℕ → Type 0 where
  ascii : (a : ℕ) → Between 0x20 0x7e a → IsChar (a ∷ [])
  blank : (a : ℕ) → (a ≡ b'\t') ⊎ (a ≡ b'\n') ⊎ (a ≡ b'\r') → IsChar (a ∷ [])
  latin : (b : ℕ) → Between 0xa0 0xbf b → IsChar (0xc2 ∷ b ∷ [])
  two : (a b : ℕ) → Between 0xc3 0xdf a → Between 0x80 0xbf b → IsChar (a ∷ b ∷ [])
  three :
      (a b c : ℕ)
      → Between 0xe0 0xef a
      → Between 0x80 0xbf b
      → Between 0x80 0xbf c
      → IsChar (a ∷ b ∷ c ∷ [])
  four :
      (a b c d : ℕ)
      → Between 0xf0 0xf4 a
      → Between 0x80 0xbf b
      → Between 0x80 0xbf c
      → Between 0x80 0xbf d
      → IsChar (a ∷ b ∷ c ∷ d ∷ [])

-- Inside a UTF-8 sequence, with `n` continuation bytes to come.
abbrev opened : OutputSanitization → ℕ → OutputSanitizer
opened p n = record (new p) { utf8_remaining = n }

continuation :
    (p : OutputSanitization) (n b : ℕ)
    → Between 0x80 0xbf b
    → process (opened p (suc n)) b ≡ (opened p n, b ∷ [])
unfolding process_in process_ground ground_text
continuation p n b h = ground arith

lead :
    (p : OutputSanitization) (n lo hi a : ℕ)
    → ((n ≡ 1) × (lo ≡ 0xc3) × (hi ≡ 0xdf))
      ⊎ ((n ≡ 2) × (lo ≡ 0xe0) × (hi ≡ 0xef))
      ⊎ ((n ≡ 3) × (lo ≡ 0xf0) × (hi ≡ 0xf4))
    → Between lo hi a
    → process (new p) a ≡ (opened p n, a ∷ [])
unfolding process_in process_ground ground_text ground_byte
lead p n lo hi a c h = ground arith

char : (p : OutputSanitization) (c : List ℕ) → IsChar c → process_all (new p) c ≡ (new p, c)
unfolding process_all
char p _ (ascii a h) = unfold process_in process_ground ground_text ground_byte in ground arith
char p _ (blank a h) = unfold process_in process_ground ground_text ground_byte in ground arith
char p _ (latin b h) = unfold process_in process_ground ground_text ground_byte in ground arith
char p _ (two a b h k) = rw (lead p 1 0xc3 0xdf a (inl (refl, refl, refl)) h, continuation p 0 b k)
char p _ (three a b c h k l) = rw (
  lead p 2 0xe0 0xef a (inr (inl (refl, refl, refl))) h,
  continuation p 1 b k,
  continuation p 0 c l,
)
char p _ (four a b c d h k l m) = rw (
  lead p 3 0xf0 0xf4 a (inr (inr (refl, refl, refl))) h,
  continuation p 2 b k,
  continuation p 1 c l,
  continuation p 0 d m,
)

chars :
    (p : OutputSanitization) (cs : List (List ℕ))
    → All IsChar cs
    → process_all (new p) (flatten cs) ≡ (new p, flatten cs)
unfolding flatten
chars p [] h = unfold process_all in refl
chars p (c ∷ cs) h = rw (process_all-append (new p) c (flatten cs), char p c h.0, chars p cs h.1)

-- A text of printable characters and blanks, in UTF-8, comes back unchanged under each policy.
pub sanitize-IsChar :
    (p : OutputSanitization) (cs : List (List ℕ))
    → All IsChar cs
    → sanitize p (flatten cs) ≡ flatten cs
unfolding sanitize push finish
sanitize-IsChar raw cs h = append-nil _
sanitize-IsChar strip_ansi cs h = rw (chars strip_ansi cs h) (append-nil _)
sanitize-IsChar strip_all cs h = rw (chars strip_all cs h) (append-nil _)
