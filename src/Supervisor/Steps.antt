-- ===== src/Supervisor/Steps.antt =====
-- What each call of a supervisor comes to (supervisor.rs).
use sandbox_driver.Base.{
  ℕ, ◌+◌, ◌<◌, ◌≤◌, ◌≡◌, ◌≢◌, refl, ◌⊎◌, inl, inr, true, Bool-cases, Option, none, some, List, [],
  ◌∷◌, All, String, ap, subst, arith,
}
use sandbox_driver.Error.{Error, Result, ok, err, ok_injective}
use sandbox_driver.Status.Labels.{texts_equal_refl}
use sandbox_driver.Supervisor.{
  Plugins, PluginConfig, PluginGeneration, PluginSupervisor, health_refusal, same_identity,
  set_live, launch_generation, on_first, open_live, retire, on_replacement, replace, on_open,
  current, on_stop, shutdown,
}
use sandbox_driver.Supervisor.Logged.{Logged, logged, IsReaped}
use sandbox_driver.Supervisor.Launches.{
  All-imp, IsLaunched, launch_generation-IsLaunched, retire-IsReaped,
}

module _ {P : Type 0} where
  -- Each generation of the list, latest first, is the earlier one or has a higher number.
  abbrev pub IsOrdered : List (PluginGeneration P) → Type 0
  IsOrdered [] = Unit
  IsOrdered (g ∷ gs) = All (λ h. (h ≡ g) ⊎ (h.number < g.number)) gs × IsOrdered gs

  -- The health was no reason to refuse it, and it reports the resource namespace.
  abbrev pub IsAdmitted : String → Option (List ℕ) → PluginGeneration P → Type 0
  IsAdmitted kind identity g =
      (health_refusal kind g.health ≡ none) × (same_identity g.health.identity identity ≡ true)

  abbrev pub IsBefore : Option (PluginGeneration P) → ℕ → PluginGeneration P → Type 0
  IsBefore none served h = h.number ≤ served
  IsBefore (some g) served h = (h ≡ g) ⊎ (h.number < served)

  abbrev pub IsCurrent : String → Option (List ℕ) → ℕ → Option (PluginGeneration P) → Type 0
  IsCurrent kind identity served none = Unit
  IsCurrent kind identity served (some g) = (g.number ≡ served) × IsAdmitted kind identity g

  -- What a supervisor has served so far, latest first.
  abbrev pub Serving :
      String
      → Option (List ℕ)
      → Option (PluginGeneration P)
      → ℕ
      → List (PluginGeneration P)
      → Type 0
  Serving kind identity live served gs =
      IsOrdered gs
      × All (IsBefore live served) gs
      × All (IsAdmitted kind identity) gs
      × IsCurrent kind identity served live

  abbrev pub served_by :
      Result (PluginGeneration P) → List (PluginGeneration P) → List (PluginGeneration P)
  served_by (ok g) gs = g ∷ gs
  served_by (err e) gs = gs

  lapsed :
      (g : PluginGeneration P) (served : ℕ) (gs : List (PluginGeneration P))
      → g.number ≡ served
      → All (IsBefore (some g) served) gs
      → All (IsBefore none served) gs
  lapsed g served gs n h =
      All-imp gs
        (λ x q. elim q [
          | inl e ↦ let m = ap (λ x. x.number) e in omega arith
          | inr l ↦ omega arith
        ])
        h

  none-Serving :
      (kind : String) (identity : Option (List ℕ)) (live : Option (PluginGeneration P)) (served : ℕ)
      (gs : List (PluginGeneration P))
      → Serving kind identity live served gs
      → Serving kind identity none served gs
  none-Serving kind identity none served gs h = h
  none-Serving kind identity (some g) served gs (o, b, a, (n, k)) =
      (o, lapsed g served gs n b, a, tt)

  live-Serving :
      (kind : String) (identity : Option (List ℕ)) (g : PluginGeneration P) (served : ℕ)
      (gs : List (PluginGeneration P))
      → Serving kind identity (some g) served gs
      → Serving kind identity (some g) served (g ∷ gs)
  live-Serving kind identity g served gs (o, b, a, (n, k)) =
      let above : All (λ h. (h ≡ g) ⊎ (h.number < g.number)) gs =
        All-imp gs (λ x q. elim q [ inl e ↦ inl e | inr l ↦ inr (omega arith) ]) b in
      ((above, o), (inl refl, b), (k, a), (n, k))

  next-Serving :
      (kind : String) (identity : Option (List ℕ)) (g : PluginGeneration P) (served : ℕ)
      (gs : List (PluginGeneration P))
      → g.number ≡ served + 1
      → IsAdmitted kind identity g
      → Serving kind identity none served gs
      → Serving kind identity (some g) g.number (g ∷ gs)
  next-Serving kind identity g served gs n k (o, b, a, c) = (
    (All-imp gs (λ x q. inr (omega arith)) b, o),
    (inl refl, All-imp gs (λ x q. inr (omega arith)) b),
    (k, a),
    (refl, k),
  )

same_identity_refl : (identity : Option (List ℕ)) → same_identity identity identity ≡ true
same_identity_refl none = refl
same_identity_refl (some text) = texts_equal_refl text

err_ok : {A : Type 0} → (e : Error) (a : A) → err e ≢ ok a
err_ok e a h = ground arith

module _ {S P : Type 0} where
  -- A supervisor that has served the generations `gs`, and every process but the live one shut down.
  abbrev pub IsSupervised : PluginSupervisor P → Logged S P → List (PluginGeneration P) → Type 0
  IsSupervised v l gs =
      IsReaped v.generations.live l
      × Serving v.config.kind v.identity v.generations.live v.generations.served gs

  abbrev pub Outcome :
      List (PluginGeneration P)
      → Result (PluginGeneration P) × PluginSupervisor P × Logged S P
      → Type 0
  Outcome gs (r, v, l) = IsSupervised v l (served_by r gs)

  module _ (plugins : Plugins S P) where
    on_replacement-Outcome :
        (v : PluginSupervisor P) (r : Result (PluginGeneration P) × Logged S P)
        (gs : List (PluginGeneration P))
        → IsLaunched v.config.kind (v.generations.served + 1) r
        → Serving v.config.kind v.identity none v.generations.served gs
        → Outcome gs (on_replacement (logged plugins) (set_live none v) r)
    on_replacement-Outcome v (err e, l) gs h k = (h, k)
    on_replacement-Outcome v (ok g, l) gs (h, n, a) k =
        elim (Bool-cases (same_identity g.health.identity v.identity)) [
          | inl e ↦
              rw e (h, next-Serving v.config.kind v.identity g v.generations.served gs n (a, e) k)
          | inr e ↦ rw e (retire-IsReaped plugins (some g) l h, k)
        ]

    replace-Outcome :
        (v : PluginSupervisor P) (l : Logged S P) (gs : List (PluginGeneration P))
        → IsSupervised v l gs
        → Outcome gs (replace (logged plugins) v l)
    unfolding replace
    replace-Outcome v l gs (h, k) =
        on_replacement-Outcome v
          (launch_generation (logged plugins) v.config (v.generations.served + 1)
            (retire (logged plugins) v.generations.live l))
          gs
          (launch_generation-IsLaunched plugins v.config (v.generations.served + 1)
            (retire (logged plugins) v.generations.live l)
            (retire-IsReaped plugins v.generations.live l h))
          (none-Serving v.config.kind v.identity v.generations.live v.generations.served gs k)

    on_live-Outcome :
        (config : PluginConfig) (identity : Option (List ℕ)) (live : Option (PluginGeneration P))
        (served : ℕ) (l : Logged S P) (gs : List (PluginGeneration P))
        → let v : PluginSupervisor P = record {
          config = config;
          identity = identity;
          generations = record { live = live; served = served };
        } in
          IsSupervised v l gs
          → Outcome gs (on_open (logged plugins) (open_live (logged plugins) live l) v l)
    on_live-Outcome config identity none served l gs h = replace-Outcome _ l gs h
    on_live-Outcome config identity (some g) served l gs h =
        elim (Bool-cases (plugins.is_closed g.provider l.system)) [
          | inl e ↦ rw e (replace-Outcome _ l gs h)
          | inr e ↦ rw e (h.0, live-Serving config.kind identity g served gs h.1)
        ]

    pub current-Outcome :
        (v : PluginSupervisor P) (l : Logged S P) (gs : List (PluginGeneration P))
        → IsSupervised v l gs
        → Outcome gs (current (logged plugins) v l)
    unfolding current
    current-Outcome v l gs h =
        on_live-Outcome v.config v.identity v.generations.live v.generations.served l gs h

    stopped-Outcome :
        (v : PluginSupervisor P) (live : Option (PluginGeneration P)) (l : Logged S P)
        (gs : List (PluginGeneration P))
        → v.generations.live ≡ live
        → IsSupervised v l gs
        → let (r, v1, l1) = on_stop (logged plugins) v live l in IsSupervised v1 l1 gs
    stopped-Outcome v none l gs e h = h
    stopped-Outcome v (some g) l gs e (h, k) =
        let reaped = subst (λ x. IsReaped x l) e h in
        (
          retire-IsReaped plugins (some g) l reaped,
          none-Serving v.config.kind v.identity v.generations.live v.generations.served gs k,
        )

    pub shutdown-Outcome :
        (v : PluginSupervisor P) (l : Logged S P) (gs : List (PluginGeneration P))
        → IsSupervised v l gs
        → let (r, v1, l1) = shutdown (logged plugins) v l in IsSupervised v1 l1 gs
    unfolding shutdown
    shutdown-Outcome v l gs h = stopped-Outcome v v.generations.live l gs refl h

    pub first-IsSupervised :
        (config : PluginConfig) (r : Result (PluginGeneration P) × Logged S P)
        (v : PluginSupervisor P) (l : Logged S P)
        → IsLaunched config.kind 1 r
        → on_first (logged plugins) config r ≡ (ok v, l)
        → IsSupervised v l []
    first-IsSupervised config (err e, s) v l h k = absurd (err_ok e v (ap (λ p. p.0) k))
    first-IsSupervised config (ok g, s) v l (h, n, a) k =
        let first : PluginSupervisor P = record {
          config = config;
          identity = g.health.identity;
          generations = record { live = some g; served = g.number };
        } in
        let supervised : IsSupervised first s [] =
          (h, (tt, tt, tt, (refl, (a, same_identity_refl g.health.identity)))) in
        subst (λ x. IsSupervised x l []) (ok_injective (ap (λ p. p.0) k))
          (subst (λ x. IsSupervised first x []) (ap (λ p. p.1) k) supervised)
