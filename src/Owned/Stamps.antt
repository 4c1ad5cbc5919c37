-- ===== src/Owned/Stamps.antt =====
-- Stamped labels are owned (owned.rs).
use sandbox_driver.Base.{
  ℕ, ◌≡◌, refl, ap, ◌∙◌, inl, inr, true, false, List, [], ◌∷◌, Bool-cases, All, arith,
}
use sandbox_driver.GitBatch.{texts_equal}
use sandbox_driver.Status.{Labels, get, insert}
use sandbox_driver.Status.Labels.{
  texts_equal_refl, texts_equal→≡, get-insert_same, get-insert_other,
}
use sandbox_driver.Owned.{Ownership, nobody, and_label, carries, owns, stamped, stamp}

-- No label has this key.
abbrev Fresh : List ℕ → Labels → Type 0
Fresh key own = All (λ (e : List ℕ × List ℕ). texts_equal key e.0 ≡ false) own

-- No key occurs twice, as in a map.
abbrev pub IsKeyed : Labels → Type 0
IsKeyed [] = Unit
IsKeyed ((key, value) ∷ own) = Fresh key own × IsKeyed own

Fresh-insert :
    (other key value : List ℕ) (own : Labels)
    → texts_equal other key ≡ false
    → Fresh other own
    → Fresh other (insert key value own)
unfolding insert
Fresh-insert other key value [] n h = (n, tt)
Fresh-insert other key value ((k, v) ∷ own) n (p, h) = elim (Bool-cases (texts_equal key k)) [
  | inl e ↦ rw e (p, h)
  | inr e ↦ rw e (p, Fresh-insert other key value own n h)
]

texts_equal-sym : (s t : List ℕ) → texts_equal s t ≡ false → texts_equal t s ≡ false
texts_equal-sym s t h = elim (Bool-cases (texts_equal t s)) [
  | inl e ↦
      let q = texts_equal→≡ t s e in
      let r = texts_equal_refl s in
      let w : texts_equal s t ≡ true = ap (texts_equal s) q ∙ r in absurd (ground arith)
  | inr n ↦ n
]

pub insert-IsKeyed :
    (key value : List ℕ) (own : Labels) → IsKeyed own → IsKeyed (insert key value own)
unfolding insert
insert-IsKeyed key value [] h = (tt, tt)
insert-IsKeyed key value ((k, v) ∷ own) (p, h) = elim (Bool-cases (texts_equal key k)) [
  | inl e ↦ rw e (p, h)
  | inr e ↦
      rw e
        (Fresh-insert k key value own (texts_equal-sym key k e) p, insert-IsKeyed key value own h)
]

get-stamped :
    (key : List ℕ) (own labels : Labels)
    → Fresh key own
    → get key (stamped own labels) ≡ get key labels
get-stamped key [] labels h = refl
get-stamped key ((k, v) ∷ own) labels (p, h) =
    get-stamped key own (insert k v labels) h ∙ get-insert_other key k v labels p

carries-stamped : (own labels : Labels) → IsKeyed own → carries own (stamped own labels) ≡ true
carries-stamped [] labels h = refl
carries-stamped ((k, v) ∷ own) labels (p, h) =
    let g = get-stamped k own (insert k v labels) p ∙ get-insert_same k v labels in
    rw (g, texts_equal_refl v, carries-stamped own (insert k v labels) h) refl

-- The ownership that these labels make, one after the other.
abbrev pub built : List (List ℕ × List ℕ) → Ownership
built [] = nobody
built ((key, value) ∷ pairs) = and_label key value (built pairs)

built-IsKeyed : (pairs : List (List ℕ × List ℕ)) → IsKeyed (built pairs).labels
unfolding and_label
built-IsKeyed [] = tt
built-IsKeyed ((key, value) ∷ pairs) =
    insert-IsKeyed key value (built pairs).labels (built-IsKeyed pairs)

-- Whatever labels a caller gives, behind the stamp they are owned.
pub owns-stamp :
    (pairs : List (List ℕ × List ℕ)) (labels : Labels)
    → owns (built pairs) (stamp (built pairs) labels) ≡ true
unfolding owns stamp
owns-stamp pairs labels = carries-stamped (built pairs).labels labels (built-IsKeyed pairs)

-- And a label whose key is not the ownership's is the caller's.
pub get-stamp :
    (key : List ℕ) (o : Ownership) (labels : Labels)
    → Fresh key o.labels
    → get key (stamp o labels) ≡ get key labels
unfolding stamp
get-stamp key o labels h = get-stamped key o.labels labels h
