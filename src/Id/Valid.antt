-- ===== src/Id/Valid.antt =====
-- What a valid identifier is (id.rs).
use sandbox_driver.Base.{
  ℕ, suc, ◌≤◌, ◌≡◌, ◌≢◌, refl, sym, ap, subst, ==_iff, ◌∙◌, ◌↔◌, ◌⊎◌, inl, inr, true, false, List,
  [], ◌∷◌, ◌++◌, map, length, ltb, ◌==◌, Bool-cases, arith, All,
}
use sandbox_driver.Id.{
  valid, invalid, all, is_empty, is_label_byte, starts_with_hyphen, ends_with_hyphen,
  validate_label, is_hex, lower, validate_sha256,
}

-- A letter, a digit or a hyphen of a label.
abbrev pub IsLabelByte : ℕ → Type 0
IsLabelByte b = ((97 ≤ b) × (b ≤ 122)) ⊎ ((48 ≤ b) × (b ≤ 57)) ⊎ (b ≡ 45)

-- No hyphen stands at either end.
abbrev pub Trimmed : List ℕ → Type 0
Trimmed value =
    ((rest : List ℕ) → value ≢ 45 ∷ rest) × ((rest : List ℕ) → value ≢ rest ++ (45 ∷ []))

all→All : (value : List ℕ) → all is_label_byte value ≡ true → All IsLabelByte value
all→All [] h = tt
all→All (b ∷ bs) h = (ground arith, all→All bs (ground arith))

All→all : (value : List ℕ) → All IsLabelByte value → all is_label_byte value ≡ true
All→all [] h = refl
All→all (b ∷ bs) (h, hs) = let i = All→all bs hs in ground arith

ends_with-append : (rest : List ℕ) → ends_with_hyphen (rest ++ (45 ∷ [])) ≡ true
ends_with-append [] = refl
ends_with-append (b ∷ []) = refl
ends_with-append (b ∷ c ∷ rest) = ends_with-append (c ∷ rest)

ends_with_sound :
    (value : List ℕ) → ends_with_hyphen value ≡ true → (rest : List ℕ) × (value ≡ rest ++ (45 ∷ []))
ends_with_sound [] h = absurd (ground arith)
ends_with_sound (b ∷ []) h = ([], ground arith)
ends_with_sound (b ∷ c ∷ bs) h =
    let (rest, e) = ends_with_sound (c ∷ bs) h in (b ∷ rest, ap (◌∷◌ b) e)

Trimmed-of :
    (value : List ℕ)
    → starts_with_hyphen value ≡ false
    → ends_with_hyphen value ≡ false
    → Trimmed value
Trimmed-of value s e = (
  λ rest q. absurd (let w = sym (ap starts_with_hyphen q) ∙ s in ground arith),
  λ rest q.
      absurd
        (let w = sym (ends_with-append rest) ∙ sym (ap ends_with_hyphen q) ∙ e in ground arith),
)

starts_with-Trimmed : (value : List ℕ) → Trimmed value → starts_with_hyphen value ≡ false
starts_with-Trimmed [] t = refl
starts_with-Trimmed (b ∷ bs) (t, u) = elim (Bool-cases (b == 45)) [
  | inl e ↦ absurd (t bs (ground arith))
  | inr e ↦ e
]

ends_with-Trimmed : (value : List ℕ) → Trimmed value → ends_with_hyphen value ≡ false
ends_with-Trimmed value (t, u) = elim (Bool-cases (ends_with_hyphen value)) [
  | inl e ↦ (let (rest, q) = ends_with_sound value e in absurd (u rest q))
  | inr e ↦ e
]

filled : (value : List ℕ) → value ≢ [] → is_empty value ≡ false
filled [] n = absurd (n refl)
filled (b ∷ bs) n = refl

-- A label is valid exactly where it is not empty, no longer than allowed, made of lowercase letters,
-- digits and hyphens, and has no hyphen at either end.
pub validate_label_iff :
    (value : List ℕ) (max_len : ℕ)
    → (validate_label value max_len ≡ valid tt)
      ↔ ((value ≢ []) × (length value ≤ max_len) × All IsLabelByte value × Trimmed value)
unfolding validate_label
validate_label_iff value max_len = (sound value, complete value)
  where
    sound :
        (value : List ℕ)
        → validate_label value max_len ≡ valid tt
        → (value ≢ []) × (length value ≤ max_len) × All IsLabelByte value × Trimmed value
    sound value h =
        let a : all is_label_byte value ≡ true = ground arith in
        let s : starts_with_hyphen value ≡ false = ground arith in
        let e : ends_with_hyphen value ≡ false = ground arith in
        let n : is_empty value ≡ false = ground arith in
        (
          λ q. absurd (let w = sym (ap is_empty q) ∙ n in ground arith),
          ground arith,
          all→All value a,
          Trimmed-of value s e,
        )

    complete :
        (value : List ℕ)
        → (value ≢ []) × (length value ≤ max_len) × All IsLabelByte value × Trimmed value
        → validate_label value max_len ≡ valid tt
    complete value (n, l, a, t) =
        let p = All→all value a in
        let s = starts_with-Trimmed value t in
        let e = ends_with-Trimmed value t in
        let m = filled value n in
        let k : ltb max_len (length value) ≡ false = ground arith in rw (m, k, p, s, e) refl

-- A digest digit in either case.
abbrev pub IsHex : ℕ → Type 0
IsHex b = ((48 ≤ b) × (b ≤ 57)) ⊎ ((97 ≤ b) × (b ≤ 102)) ⊎ ((65 ≤ b) × (b ≤ 70))

abbrev pub IsLowerHex : ℕ → Type 0
IsLowerHex b = ((48 ≤ b) × (b ≤ 57)) ⊎ ((97 ≤ b) × (b ≤ 102))

lowered : (value : List ℕ) → all is_hex value ≡ true → All IsLowerHex (map lower value)
lowered [] h = tt
lowered (b ∷ bs) h = (ground arith, lowered bs (ground arith))

hex_kept :
    (value : List ℕ) → All IsLowerHex value → (all is_hex value ≡ true) × (map lower value ≡ value)
hex_kept [] h = (refl, refl)
hex_kept (b ∷ bs) (h, hs) =
    let (i, j) = hex_kept bs hs in let e : lower b ≡ b = ground arith in (ground arith, cc)

length-map-lower : (value : List ℕ) → length (map lower value) ≡ length value
length-map-lower [] = refl
length-map-lower (b ∷ bs) = ap suc (length-map-lower bs)

-- A digest that is accepted is stored as 64 lowercase hexadecimal digits, and what is stored is
-- accepted again unchanged.
pub validate_sha256-stored :
    (value stored : List ℕ)
    → validate_sha256 value ≡ valid stored
    → (length stored ≡ 64) × All IsLowerHex stored × (validate_sha256 stored ≡ valid stored)
unfolding validate_sha256
validate_sha256-stored value stored h = elim (Bool-cases (length value == 64)) [
  | inr n ↦ absurd (ground arith)
  | inl n ↦ elim (Bool-cases (all is_hex value)) [
    | inr a ↦ absurd (ground arith)
    | inl a ↦
        let e : map lower value ≡ stored = valid_injective (rw (n, a) at h) in
        let low = subst (All IsLowerHex) e (lowered value a) in
        let len : length stored ≡ 64 =
          ap length (sym e) ∙ length-map-lower value ∙ (==_iff (length value) 64).0 n in
        let (i, j) = hex_kept stored low in
        let k : (length stored == 64) ≡ true = (==_iff (length stored) 64).1 len in
        (len, low, rw (k, i, j) refl)
  ]
]
  where
    valid_injective : {x y : List ℕ} → valid x ≡ valid y → x ≡ y
    valid_injective {x = x} e = ap (λ r. elim r [ valid z ↦ z | invalid _ ↦ x ]) e
