-- ===== src/Supervisor/Launches.antt =====
-- What a launch of a generation leaves behind (supervisor.rs).
use sandbox_driver.Base.{
  ℕ, ◌≡◌, refl, ◌⊎◌, inl, inr, Option, none, some, List, [], ◌∷◌, All, String,
}
use sandbox_driver.Error.{Error, Result, ok, err}
use sandbox_driver.Supervisor.{
  Plugins, PluginConfig, ProviderHealth, Launched, PluginGeneration, health_refusal, on_refusal,
  on_health, on_launched, launch_generation, retire,
}
use sandbox_driver.Supervisor.Logged.{Logged, log_launch, logged, Has, IsLive, IsReaped}

pub All-imp :
    {A : Type 0} {Q R : A → Type 0} (xs : List A) → ((x : A) → Q x → R x) → All Q xs → All R xs
All-imp [] f h = tt
All-imp (x ∷ xs) f (q, h) = (f x q, All-imp xs f h)

module _ {P : Type 0} where
  stays :
      (stop : P) (live : Option (PluginGeneration P)) (stopped : List P) (p : P)
      → Has p stopped ⊎ IsLive p none
      → Has p (stop ∷ stopped) ⊎ IsLive p live
  stays stop live stopped p (inl h) = inl (inr h)
  stays stop live stopped p (inr h) = absurd h

  pub serves :
      (g : PluginGeneration P) (stopped : List P) (p : P)
      → Has p stopped ⊎ IsLive p none
      → Has p stopped ⊎ IsLive p (some g)
  serves g stopped p (inl h) = inl h
  serves g stopped p (inr h) = absurd h

  retired :
      (g : PluginGeneration P) (stopped : List P) (p : P)
      → Has p stopped ⊎ IsLive p (some g)
      → Has p (g.provider ∷ stopped) ⊎ IsLive p none
  retired g stopped p (inl h) = inl (inr h)
  retired g stopped p (inr h) = inl (inl h)

module _ {S P : Type 0} where
  -- Behind a launch: without a generation all processes are shut down, and with one all but its own; it
  -- has the number, and its health is no reason to refuse it.
  abbrev pub IsLaunched : String → ℕ → Result (PluginGeneration P) × Logged S P → Type 0
  IsLaunched kind number (err e, l) = IsReaped none l
  IsLaunched kind number (ok g, l) =
      IsReaped (some g) l × (g.number ≡ number) × (health_refusal kind g.health ≡ none)

  module _ (plugins : Plugins S P) where
    on_refusal-IsLaunched :
        (kind : String) (number : ℕ) (p : Launched P) (health : ProviderHealth)
        (refusal : Option Error) (s : S) (launched stopped : List P)
        → health_refusal kind health ≡ refusal
        → All (λ q. Has q stopped ⊎ IsLive q none) launched
        → IsLaunched kind number (
            on_refusal
              (logged plugins)
              number
              p
              health
              refusal
              (record { system = s; launched = p.provider ∷ launched; stopped = stopped }))
    on_refusal-IsLaunched kind number p health (some e) s launched stopped r h =
        (inl (inl refl), All-imp launched (stays p.provider none stopped) h)
    on_refusal-IsLaunched kind number p health none s launched stopped r h =
        let g : PluginGeneration P = record {
          provider = p.provider;
          number = number;
          path = p.path;
          verified = p.verified;
          health = health;
        } in
        ((inr refl, All-imp launched (serves g stopped) h), refl, r)

    on_health-IsLaunched :
        (kind : String) (number : ℕ) (p : Launched P) (r : Result ProviderHealth) (s : S)
        (launched stopped : List P)
        → All (λ q. Has q stopped ⊎ IsLive q none) launched
        → IsLaunched kind number (
            on_health
              (logged plugins)
              kind
              number
              p
              (r, record { system = s; launched = p.provider ∷ launched; stopped = stopped }))
    on_health-IsLaunched kind number p (err e) s launched stopped h =
        (inl (inl refl), All-imp launched (stays p.provider none stopped) h)
    on_health-IsLaunched kind number p (ok health) s launched stopped h =
        on_refusal-IsLaunched kind number p health (health_refusal kind health) s launched stopped
          refl h

    on_launched-IsLaunched :
        (kind : String) (number : ℕ) (r : Result (Launched P) × S) (l : Logged S P)
        → IsReaped none l
        → IsLaunched kind number (on_launched (logged plugins) kind number (log_launch r l))
    on_launched-IsLaunched kind number (err e, s) l h = h
    on_launched-IsLaunched kind number (ok p, s) l h =
        let (r, s1) = plugins.health p.provider s in
        on_health-IsLaunched kind number p r s1 l.launched l.stopped h

    pub launch_generation-IsLaunched :
        (config : PluginConfig) (number : ℕ) (l : Logged S P)
        → IsReaped none l
        → IsLaunched config.kind number (launch_generation (logged plugins) config number l)
    unfolding launch_generation
    launch_generation-IsLaunched config number l h =
        on_launched-IsLaunched config.kind number (plugins.launch_plugin config l.system) l h

    pub retire-IsReaped :
        (live : Option (PluginGeneration P)) (l : Logged S P)
        → IsReaped live l
        → IsReaped none (retire (logged plugins) live l)
    retire-IsReaped none l h = h
    retire-IsReaped (some g) l h = All-imp l.launched (retired g l.stopped) h
