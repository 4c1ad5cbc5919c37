-- ===== src/Supervisor/Logged.antt =====
-- Plugins that keep a record of the processes that were launched and of those that were shut down, to
-- speak of what a supervisor (supervisor.rs) does with them.
use sandbox_driver.Base.{Option, none, some, List, [], ◌∷◌, ◌≡◌, ◌⊎◌, All}
use sandbox_driver.Error.{Result, ok, err}
use sandbox_driver.Supervisor.{Plugins, Launched, PluginGeneration}

pub record Logged (S P : Type 0) : Type 0 where
  pub system : S
  pub launched : List P
  pub stopped : List P

module _ {P : Type 0} where
  abbrev pub IsLive : P → Option (PluginGeneration P) → Type 0
  IsLive p none = ⊥
  IsLive p (some g) = p ≡ g.provider

  abbrev pub Has : P → List P → Type 0
  Has p [] = ⊥
  Has p (q ∷ stopped) = (p ≡ q) ⊎ Has p stopped

module _ {S P : Type 0} where
  abbrev pub log_launch : Result (Launched P) × S → Logged S P → Result (Launched P) × Logged S P
  log_launch (err e, s) l = (err e, record l { system = s })
  log_launch (ok p, s) l = (ok p, record l { system = s; launched = p.provider ∷ l.launched })

  -- The same plugins; a shutdown counts whatever it answers.
  abbrev pub logged : Plugins S P → Plugins (Logged S P) P
  logged plugins = record {
    launch_plugin = λ config l. log_launch (plugins.launch_plugin config l.system) l;
    health = λ p l. let (r, s) = plugins.health p l.system in (r, record l { system = s });
    shutdown = λ p l.
        let (r, s) = plugins.shutdown p l.system in
        (r, record l { system = s; stopped = p ∷ l.stopped });
    is_closed = λ p l. plugins.is_closed p l.system;
  }

  -- Every process that was launched is shut down, but for the live one.
  abbrev pub IsReaped : Option (PluginGeneration P) → Logged S P → Type 0
  IsReaped live l = All (λ p. Has p l.stopped ⊎ IsLive p live) l.launched
