-- ===== src/Frame/Chunks.antt =====
-- `slice::chunks`, as `FrameWriter::write` uses it (crates/sandbox-driver-protocol/src/channel.rs).
use mathlib.Core.List.{flatten}
use sandbox_driver.Base.{
  ℕ, zero, suc, ◌≤◌, ◌<◌, ◌≡◌, refl, ap, ◌∙◌, List, [], ◌∷◌, ◌++◌, take, drop, take-append-drop,
  length, length-take, length-drop, All, arith,
}
use sandbox_driver.Frame.{chunks}

pub flatten-chunks :
    (fuel n : ℕ) (bytes : List ℕ)
    → 0 < n
    → length bytes ≤ fuel
    → flatten (chunks fuel n bytes) ≡ bytes
unfolding chunks flatten
flatten-chunks fuel n [] h k = refl
flatten-chunks zero n (b ∷ bytes) h k = absurd (omega arith)
flatten-chunks (suc fuel) n (b ∷ bytes) h k =
    ap (◌++◌ (take n (b ∷ bytes)))
      (flatten-chunks fuel n (drop n (b ∷ bytes)) h (omega (arith, length-drop n (b ∷ bytes))))
    ∙ take-append-drop n (b ∷ bytes)

pub chunks-bounded : (fuel n : ℕ) (bytes : List ℕ) → All (λ c. length c ≤ n) (chunks fuel n bytes)
unfolding chunks
chunks-bounded fuel n [] = tt
chunks-bounded zero n (b ∷ bytes) = tt
chunks-bounded (suc fuel) n (b ∷ bytes) =
    (omega (arith, length-take n (b ∷ bytes)), chunks-bounded fuel n (drop n (b ∷ bytes)))
