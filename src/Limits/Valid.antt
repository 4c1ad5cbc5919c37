-- ===== src/Limits/Valid.antt =====
-- What `validate` accepts (limits.rs).
use sandbox_driver.Base.{
  ℕ, ◌<◌, ◌≤◌, ◌^◌, ◌-◌, min, ◌≡◌, ◌≢◌, refl, ◌∙◌, sym, inl, inr, ◌↔◌, true, false, ◌||◌, ◌==◌, ltb,
  Bool-cases, List, [], ◌∷◌, String, All, arith,
}
use sandbox_driver.Error.{Error, ok, err, Result-cases}
use sandbox_driver.Limits.{
  TransportLimits, seconds, counts, durations, check, budget_reason, duration_reason, validate,
}

abbrev pub IsWithin : ℕ → String × ℕ → Type 0
IsWithin most (name, value) = (0 < value) × (value ≤ most)

err_ok : {A : Type 0} → (e : Error) (a : A) → err e ≢ ok a
err_ok e a h = ground arith

check_iff :
    (most : ℕ) (reason : String) (values : List (String × ℕ))
    → (check most reason values ≡ ok tt) ↔ All (IsWithin most) values
check_iff most reason [] = (λ h. tt, λ h. refl)
check_iff most reason ((name, value) ∷ rest) =
    let (to, from) = check_iff most reason rest in
    elim (Bool-cases (value == 0 || ltb most value)) [
      | inl e ↦ (λ h. absurd (err_ok _ tt (rw e at h)), λ (w, k). absurd (over most value e w))
      | inr e ↦ (λ h. (within most value e, to (rw e at h)), λ (w, k). rw e (from k))
    ]
  where
    over :
        (most value : ℕ) → (value == 0 || ltb most value) ≡ true → (0 < value) × (value ≤ most) → ⊥
    over most value e w = ground arith

    within :
        (most value : ℕ) → (value == 0 || ltb most value) ≡ false → (0 < value) × (value ≤ most)
    within most value e = ground arith

-- Limits are accepted exactly where every count is positive and fits a semaphore and 32 bits, and every
-- duration is positive and at most one day.
pub validate_iff :
    (max_permits : ℕ) (l : TransportLimits)
    → (validate max_permits l ≡ ok tt) ↔ (
        All (IsWithin (min max_permits (2 ^ 32 - 1))) (counts l)
        × All (IsWithin (seconds 86400)) (durations l))
unfolding validate
validate_iff max_permits l =
    let counted = check_iff (min max_permits (2 ^ 32 - 1)) budget_reason (counts l) in
    let timed = check_iff (seconds 86400) duration_reason (durations l) in
    elim (Result-cases (check (min max_permits (2 ^ 32 - 1)) budget_reason (counts l))) [
      | inl (tt, e) ↦ (λ h. (counted.0 e, timed.0 (rw e at h)), λ (c, d). rw e (timed.1 d))
      | inr (x, e) ↦ (
        λ h. absurd (err_ok x tt (rw e at h)),
        λ (c, d). absurd (err_ok x tt (sym e ∙ counted.1 c)),
      )
    ]
