-- ===== src/Capture/Policy.antt =====
-- What is retained of an output (capture.rs).
use mathlib.Core.List.{flatten}
use sandbox_driver.Base.{
  ℕ, ◌+◌, ◌-◌, min, ◌≡◌, refl, sym, ap, ◌∙◌, false, Option, none, some, List, [], ◌∷◌, ◌++◌,
  append_assoc, append-nil, length, take, drop, length-append, length-take, length-drop, take-nil,
  drop-nil, latest, arith,
}
use sandbox_driver.Capture.{
  OutputCaptureBuffer, CaptureStats, cap_of, half_of, new, push, into_parts, stats, to_bytes,
}
use sandbox_driver.Capture.Steps.{seen, push_capped-seen, length-latest}

push-seen : (h t : ℕ) (s chunk : List ℕ) → push chunk (seen h t s) ≡ seen h t (s ++ chunk)
unfolding push
push-seen h t s chunk = push_capped-seen h t s chunk

abbrev pub push_all : List (List ℕ) → OutputCaptureBuffer → OutputCaptureBuffer
push_all [] b = b
push_all (chunk ∷ chunks) b = push_all chunks (push chunk b)

push_all-seen :
    (h t : ℕ) (chunks : List (List ℕ)) (s : List ℕ)
    → push_all chunks (seen h t s) ≡ seen h t (s ++ flatten chunks)
unfolding flatten
push_all-seen h t [] s = ap (seen h t) (sym (append-nil s))
push_all-seen h t (chunk ∷ chunks) s =
    ap (push_all chunks) (push-seen h t s chunk)
    ∙ push_all-seen h t chunks (s ++ chunk)
    ∙ ap (seen h t) (append_assoc s chunk (flatten chunks))

-- What the policy keeps of an output: its first bytes, half the cap, then its latest.
abbrev tail_of : Option ℕ → ℕ
tail_of cap = cap_of cap - half_of cap

abbrev pub kept : Option ℕ → List ℕ → List ℕ
kept cap s = take (half_of cap) s ++ latest (tail_of cap) (drop (half_of cap) s)

half_le : (cap : Option ℕ) → half_of cap + tail_of cap ≡ cap_of cap
half_le none = refl
half_le (some c) = omega arith

new-seen : (cap : Option ℕ) → new cap ≡ seen (half_of cap) (tail_of cap) []
unfolding new
new-seen cap =
    let h = half_of cap in
    let z : 0 - tail_of cap ≡ 0 = omega arith in rw (half_le cap, take-nil h, drop-nil h, z) refl

push_all-new :
    (cap : Option ℕ) (chunks : List (List ℕ))
    → push_all chunks (new cap) ≡ seen (half_of cap) (tail_of cap) (flatten chunks)
push_all-new cap chunks =
    ap (push_all chunks) (new-seen cap) ∙ push_all-seen (half_of cap) (tail_of cap) chunks []

length-kept : (cap : Option ℕ) (s : List ℕ) → length (kept cap s) ≡ min (cap_of cap) (length s)
length-kept cap s =
    let h = half_of cap in
    let r = latest (tail_of cap) (drop h s) in
    omega (
      arith,
      half_le cap,
      length-append (take h s) r,
      length-take h s,
      length-latest (tail_of cap) (drop h s),
      length-drop h s,
    )

length-over :
    (cap : Option ℕ) (s : List ℕ)
    → length (drop (half_of cap) s) - tail_of cap ≡ length s - cap_of cap
length-over cap s = omega (arith, half_le cap, length-drop (half_of cap) s)

-- The accounting of an output: every byte is observed, and omitted are those over the cap.
abbrev pub stats_for : Option ℕ → List ℕ → CaptureStats
stats_for cap s = record {
  observed_bytes = length s;
  retained_bytes = min (cap_of cap) (length s);
  omitted_bytes = length s - cap_of cap;
  truncated = false;
}

pub to_bytes-kept :
    (cap : Option ℕ) (chunks : List (List ℕ))
    → to_bytes (push_all chunks (new cap)) ≡ kept cap (flatten chunks)
unfolding to_bytes
to_bytes-kept cap chunks = ap to_bytes (push_all-new cap chunks)

pub stats-push_all :
    (cap : Option ℕ) (chunks : List (List ℕ))
    → stats (push_all chunks (new cap)) ≡ stats_for cap (flatten chunks)
unfolding stats
stats-push_all cap chunks =
    let s = flatten chunks in
    let h = half_of cap in
    let l : length (take h s) + length (latest (tail_of cap) (drop h s))
        ≡ min (cap_of cap) (length s) =
      omega
        (arith, length-kept cap s, length-append (take h s) (latest (tail_of cap) (drop h s))) in
    ap stats (push_all-new cap chunks) ∙ rw (l, length-over cap s) refl

-- However an output comes in chunks, what `into_parts` returns is what the policy keeps of the whole:
-- the first half of the cap and the latest bytes behind it, at most the cap together; every byte is
-- counted as observed, and as omitted what goes over the cap. Without a cap nothing is kept.
pub into_parts-push_all :
    (cap : Option ℕ) (chunks : List (List ℕ))
    → into_parts (push_all chunks (new cap))
      ≡ (kept cap (flatten chunks), stats_for cap (flatten chunks))
unfolding into_parts
into_parts-push_all cap chunks =
    ap into_parts (push_all-new cap chunks)
    ∙ rw (length-kept cap (flatten chunks), length-over cap (flatten chunks)) refl
