-- ===== src/Capture/Steps.antt =====
-- A step of the capture in the terms of the output that it has seen (capture.rs).
use sandbox_driver.Base.{
  ℕ, ◌+◌, ◌-◌, ◌≤◌, ◌<◌, min, ◌≡◌, refl, sym, ap, ◌∙◌, inl, inr, some, List, [], ◌∷◌, ◌++◌,
  append_assoc, append-nil, length, take, drop, length-append, length-take, length-drop,
  take-append, drop-append, take-min, drop-min, drop-drop, latest, ◌==◌, ==_iff, Bool-cases, arith,
}
use sandbox_driver.Capture.{
  OutputCaptureBuffer, push_byte, push_tail, push_rest, push_capped, head_take,
}

-- The buffer that has seen `s`, with a head of `h` bytes, a tail of `t` and `r` behind the head.
abbrev pub seen_with : ℕ → ℕ → List ℕ → List ℕ → ℕ → OutputCaptureBuffer
seen_with h t head r n = record {
  cap = some (h + t);
  head_cap = h;
  head = head;
  tail = latest t r;
  observed = n;
  omitted = length r - t;
}

abbrev pub seen : ℕ → ℕ → List ℕ → OutputCaptureBuffer
seen h t s = seen_with h t (take h s) (drop h s) (length s)

length-zero : (r : List ℕ) → length r ≡ 0 → r ≡ []
length-zero [] e = refl
length-zero (x ∷ r) e = absurd (omega arith)

latest-more :
    (t b : ℕ) (r : List ℕ)
    → 0 < t
    → t ≤ length r
    → drop 1 (latest t r) ++ (b ∷ []) ≡ latest t (r ++ (b ∷ []))
latest-more t b r p h =
    let n : length (r ++ (b ∷ [])) - t ≡ length r - t + 1 =
      omega (arith, length-append r (b ∷ [])) in
    let z : length r - t + 1 - length r ≡ 0 = omega arith in
    rw (drop-drop 1 (length r - t) r, n, drop-append (length r - t + 1) r (b ∷ []), z) refl

latest-fewer :
    (t b : ℕ) (r : List ℕ) → length r + 1 ≤ t → latest t r ++ (b ∷ []) ≡ latest t (r ++ (b ∷ []))
latest-fewer t b r h =
    let n : length (r ++ (b ∷ [])) - t ≡ 0 = omega (arith, length-append r (b ∷ [])) in
    let m : length r - t ≡ 0 = omega arith in rw (n, m) refl

pub length-latest : (t : ℕ) (r : List ℕ) → length (latest t r) ≡ min t (length r)
length-latest t r = omega (arith, length-drop (length r - t) r)

none_latest : (t : ℕ) (r : List ℕ) → t ≡ 0 → latest t r ≡ []
none_latest t r e = length-zero (latest t r) (omega (arith, length-latest t r))

push_byte-seen_with :
    (h t b : ℕ) (head r : List ℕ) (n : ℕ)
    → 0 < t
    → push_byte t b (seen_with h t head r n) ≡ seen_with h t head (r ++ (b ∷ [])) n
unfolding push_byte
push_byte-seen_with h t b head r n p = elim (Bool-cases (length (latest t r) == t)) [
  | inl e ↦
      let long : t ≤ length r = ground (arith, length-latest t r) in
      let m : length (r ++ (b ∷ [])) - t ≡ length r - t + 1 =
        omega (arith, length-append r (b ∷ [])) in
      rw (e, latest-more t b r p long, m) refl
  | inr e ↦
      let short : length r + 1 ≤ t = ground (arith, length-latest t r) in
      let m : length (r ++ (b ∷ [])) - t ≡ length r - t = omega (arith, length-append r (b ∷ [])) in
      rw (e, latest-fewer t b r short, m) refl
]

push_tail-seen_with :
    (h t : ℕ) (rest head r : List ℕ) (n : ℕ)
    → 0 < t
    → push_tail t rest (seen_with h t head r n) ≡ seen_with h t head (r ++ rest) n
unfolding push_tail
push_tail-seen_with h t [] head r n p = ap (λ x. seen_with h t head x n) (sym (append-nil r))
push_tail-seen_with h t (b ∷ rest) head r n p =
    ap (push_tail t rest) (push_byte-seen_with h t b head r n p)
    ∙ push_tail-seen_with h t rest head (r ++ (b ∷ [])) n p
    ∙ ap (λ x. seen_with h t head x n) (append_assoc r (b ∷ []) rest)

-- Behind the head, whatever the cap of the tail.
push_rest-seen_with :
    (h t : ℕ) (rest head r : List ℕ) (n : ℕ)
    → push_rest t rest (seen_with h t head r n) ≡ seen_with h t head (r ++ rest) n
push_rest-seen_with h t rest head r n = elim (Bool-cases (t == 0)) [
  | inl e ↦
      let z = (==_iff t 0).0 e in
      let o : length r - t + length rest ≡ length (r ++ rest) - t =
        omega (arith, length-append r rest) in
      let a : latest t r ≡ latest t (r ++ rest) =
        none_latest t r z ∙ sym (none_latest t (r ++ rest) z) in
      rw (e, o, a) refl
  | inr e ↦ rw e (push_tail-seen_with h t rest head r n (ground arith))
]

-- What `push` makes of a chunk behind `s`, in the terms of the two caps.
pub push_capped-seen :
    (h t : ℕ) (s chunk : List ℕ)
    → push_capped (h + t) chunk (seen_with h t (take h s) (drop h s) (length s + length chunk))
      ≡ seen h t (s ++ chunk)
push_capped-seen h t s chunk =
    let b = seen_with h t (take h s) (drop h s) (length s + length chunk) in
    let n : head_take chunk b ≡ min (h - length s) (length chunk) =
      ground (arith, length-take h s) in
    let m : h + t - h ≡ t = omega arith in
    rw (n, m, take-min (h - length s) chunk, drop-min (h - length s) chunk)
      (push_rest-seen_with h t (drop (h - length s) chunk) (take h s ++ take (h - length s) chunk)
          (drop h s) (length s + length chunk)
        ∙ rw (sym (take-append h s chunk), sym (drop-append h s chunk), sym (length-append s chunk))
            refl)
