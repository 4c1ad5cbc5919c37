-- ===== src/Owned/Scope.antt =====
-- What an owned provider lets through (owned.rs).
use sandbox_driver.Base.{
  ℕ, ◌≡◌, ◌≢◌, refl, sym, ap, ◌∙◌, subst, ◌⊎◌, inl, inr, true, List, [], ◌∷◌, String, Bool-cases,
  All, arith,
}
use sandbox_driver.Error.{Error, Result, ok, err, ok_injective}
use sandbox_driver.Status.{SandboxStatus}
use sandbox_driver.Owned.{
  Ownership, owns, stamp, SandboxSpec, SandboxFilter, SandboxProvider, on_described, checked,
  then_checked, create, attach, delete, on_attached, retained, on_listed, list,
}
use sandbox_driver.Owned.Stamps.{built, owns-stamp}

err_ok : {A : Type 0} → (e : Error) (a : A) → err e ≢ ok a
err_ok e a h = ground arith

module _ {S H : Type 0} (o : Ownership) (inner : SandboxProvider S H) where
  -- The inner attach gave this handle, and the describe that followed showed the ownership's labels.
  abbrev pub Checked : String → S → H → S → Type 0
  Checked id s handle after =
      (s1 : S) × (status : SandboxStatus) × (inner.attach id s ≡ (ok handle, s1))
      × (inner.describe handle s1 ≡ (ok status, after))
      × (owns o status.labels ≡ true)

  -- What a delete comes to: the handle's own delete, behind the check, or no delete at all.
  abbrev pub Spares : String → S → Result {0} Unit × S → Type 0
  Spares id s outcome =
      ((handle : H) × (after : S) × Checked id s handle after
        × (outcome ≡ inner.delete handle after))
      ⊎ (outcome.1 ≡ (attach o inner id s).1)

  retained-All :
      (statuses : List SandboxStatus)
      → All (λ (s : SandboxStatus). owns o s.labels ≡ true) (retained o inner statuses)
  retained-All [] = tt
  retained-All (status ∷ statuses) = elim (Bool-cases (owns o status.labels)) [
    | inl e ↦ rw e (e, retained-All statuses)
    | inr e ↦ rw e (retained-All statuses)
  ]

  on_described-ok :
      (handle handle' : H) (d : Result SandboxStatus × S) (after : S)
      → on_described o inner handle d ≡ (ok handle', after)
      → (handle ≡ handle')
        × (status : SandboxStatus) × (d ≡ (ok status, after))
        × (owns o status.labels ≡ true)
  on_described-ok handle handle' (err e, s) after h = absurd (err_ok e handle' (ap (λ p. p.0) h))
  on_described-ok handle handle' (ok status, s) after h = elim (Bool-cases (owns o status.labels)) [
    | inl e ↦
        let k = rw e at h in
        (ok_injective (ap (λ p. p.0) k), status, ap (λ x. (ok status, x)) (ap (λ p. p.1) k), e)
    | inr e ↦ absurd (err_ok _ handle' (ap (λ p. p.0) (rw e at h)))
  ]

  then_checked-ok :
      (r : Result H × S) (handle : H) (after : S)
      → then_checked o inner r ≡ (ok handle, after)
      → (s1 : S) × (status : SandboxStatus) × (r ≡ (ok handle, s1))
        × (inner.describe handle s1 ≡ (ok status, after))
        × (owns o status.labels ≡ true)
  unfolding checked
  then_checked-ok (err e, s) handle after h = absurd (err_ok e handle (ap (λ p. p.0) h))
  then_checked-ok (ok found, s) handle after h =
      let (q, status, d, e) = on_described-ok found handle (inner.describe found s) after h in
      (
        s,
        status,
        ap (λ x. (ok x, s)) q,
        subst (λ x. inner.describe x s ≡ (ok status, after)) q d,
        e,
      )

  pub attach-Checked :
      (id : String) (s : S) (handle : H) (after : S)
      → attach o inner id s ≡ (ok handle, after)
      → Checked id s handle after
  unfolding attach
  attach-Checked id s handle after h = then_checked-ok (inner.attach id s) handle after h

  on_attached-Spares :
      (id : String) (s : S) (r : Result H × S)
      → attach o inner id s ≡ r
      → Spares id s (on_attached o inner r)
  on_attached-Spares id s (ok handle, after) h =
      inl (handle, after, attach-Checked id s handle after h, refl)
  on_attached-Spares id s (err e, after) h = inr (ap (λ p. p.1) (sym h))

  -- A delete by id deletes only a sandbox that the inner provider attached and that was then seen with
  -- every label of the ownership; in any other case nothing is deleted, and the backend is left as the
  -- attach and the describe left it.
  pub delete-Spares : (id : String) (s : S) → Spares id s (delete o inner id s)
  unfolding delete
  delete-Spares id s = on_attached-Spares id s (attach o inner id s) refl

  on_listed-All :
      (r : Result (List SandboxStatus) × S) (statuses : List SandboxStatus) (after : S)
      → on_listed o inner r ≡ (ok statuses, after)
      → All (λ (s : SandboxStatus). owns o s.labels ≡ true) statuses
  on_listed-All (err e, s) statuses after h = absurd (err_ok e statuses (ap (λ p. p.0) h))
  on_listed-All (ok found, s) statuses after h =
      subst (All (λ (s : SandboxStatus). owns o s.labels ≡ true)) (ok_injective (ap (λ p. p.0) h))
        (retained-All found)

  -- A listing shows only owned sandboxes, even where the backend ignores the filter.
  pub list-All :
      (filter : SandboxFilter) (s after : S) (statuses : List SandboxStatus)
      → list o inner filter s ≡ (ok statuses, after)
      → All (λ (s : SandboxStatus). owns o s.labels ≡ true) statuses
  unfolding list
  list-All filter s after statuses h =
      on_listed-All (inner.list (record filter { labels = stamp o filter.labels }) s) statuses after
        h

module _ {S H : Type 0} (inner : SandboxProvider S H) where
  -- A provider that shows the labels that a sandbox was created with.
  abbrev pub KeepsLabels : Type 0
  KeepsLabels =
      (spec : SandboxSpec) (s s1 : S) (handle : H)
      → inner.create spec s ≡ (ok handle, s1)
      → (status : SandboxStatus) × (s2 : S) × (inner.describe handle s1 ≡ (ok status, s2))
        × (status.labels ≡ spec.labels)

  -- Over a provider that keeps labels, what an owner creates passes its own check, whatever labels the
  -- caller gave.
  pub create-checked :
      (pairs : List (List ℕ × List ℕ)) (spec : SandboxSpec) (s s1 : S) (handle : H)
      → KeepsLabels
      → create (built pairs) inner spec s ≡ (ok handle, s1)
      → (checked (built pairs) inner handle s1).0 ≡ ok handle
  unfolding create checked
  create-checked pairs spec s s1 handle keeps h =
      let o = built pairs in
      let (status, s2, d, l) = keeps (record spec { labels = stamp o spec.labels }) s s1 handle h in
      let e : owns o status.labels ≡ true = ap (owns o) l ∙ owns-stamp pairs spec.labels in
      rw (d, e) refl
