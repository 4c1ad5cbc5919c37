-- ===== src/Quoted/Fuel.antt =====
-- The fuel of the ANSI-C loop is enough (encoded_exec.rs).
use sandbox_driver.Base.{
  ℕ, zero, suc, ◌+◌, ◌-◌, ◌*◌, ◌≤◌, ◌≡◌, refl, ap, Bool, true, false, Option, none, some, List, [],
  ◌∷◌, length, ltb, within, ◌==◌, if◌then◌else◌, arith,
}
use sandbox_driver.Quoted.{
  StdResult, fault, pushed, pushed_if, printable, named, octal_more, octal_value, on_escape,
  ansi_byte, ansi_loop, decode_ansi_c,
}

length-octal_more :
    (left value : ℕ) (input : List ℕ) → length (octal_more left value input).1 ≤ length input
length-octal_more zero value input = omega arith
length-octal_more (suc left) value [] = omega arith
length-octal_more (suc left) value (next ∷ input) =
    ground (arith, length-octal_more left (value * 8 + (next - 48)) input)

-- Two continuations that agree on what is no longer than `n`.
abbrev Agree : ℕ → (List ℕ → StdResult (List ℕ)) → (List ℕ → StdResult (List ℕ)) → Type 0
Agree n f g = (input : List ℕ) → length input ≤ n → f input ≡ g input

module _ (f g : List ℕ → StdResult (List ℕ)) where
  octal_value-Agree : (r : ℕ × List ℕ) → f r.1 ≡ g r.1 → octal_value f r ≡ octal_value g r
  octal_value-Agree (value, input) e =
      ap (λ rest. if ltb value 256 then pushed value rest else fault "output escape exceeds a byte")
        e

  on_escape-Agree :
      (escaped : ℕ) (input : List ℕ) (o : Option ℕ)
      → Agree (length input) f g
      → on_escape f escaped input o ≡ on_escape g escaped input o
  on_escape-Agree escaped input (some value) h = ap (pushed value) (h input (omega arith))
  on_escape-Agree escaped input none h =
      let r = octal_more 2 (escaped - 48) input in
      ap (λ v. if within 48 55 escaped then v else fault "unknown output escape")
        (octal_value-Agree r (h r.1 (length-octal_more 2 (escaped - 48) input)))

  ansi_byte-Agree :
      (byte : ℕ) (input : List ℕ) (b : Bool)
      → Agree (length input) f g
      → ansi_byte f byte input b ≡ ansi_byte g byte input b
  ansi_byte-Agree byte [] true h = refl
  ansi_byte-Agree byte (e ∷ input) true h =
      on_escape-Agree e input (named e) (λ i k. h i (omega arith))
  ansi_byte-Agree byte input false h = ap (pushed_if (printable byte)) (h input (omega arith))

ansi_loop-Agree :
    (m n : ℕ) (input : List ℕ)
    → length input ≤ m
    → length input ≤ n
    → ansi_loop m input ≡ ansi_loop n input
unfolding ansi_loop
ansi_loop-Agree m n [] h k = refl
ansi_loop-Agree zero n (b ∷ input) h k = absurd (omega arith)
ansi_loop-Agree (suc m) zero (b ∷ input) h k = absurd (omega arith)
ansi_loop-Agree (suc m) (suc n) (b ∷ input) h k =
    ansi_byte-Agree (ansi_loop m) (ansi_loop n) b input (b == 92)
      (λ i l. ansi_loop-Agree m n i (omega arith) (omega arith))

-- More fuel than the length of the input changes nothing.
pub ansi_loop-enough :
    (fuel : ℕ) (input : List ℕ) → length input ≤ fuel → ansi_loop fuel input ≡ decode_ansi_c input
unfolding decode_ansi_c
ansi_loop-enough fuel input h = ansi_loop-Agree fuel (length input) input h (omega arith)
