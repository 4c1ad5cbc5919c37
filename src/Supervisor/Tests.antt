-- ===== src/Supervisor/Tests.antt =====
-- Runs of a supervisor (supervisor.rs).
use sandbox_driver.Base.{
  ℕ, ◌+◌, ◌≡◌, refl, Option, none, some, List, [], ◌∷◌, All, true, ltb, ◌==◌, if◌then◌else◌, map,
}
use sandbox_driver.Error.{ok}
use sandbox_driver.Status.{get, insert}
use sandbox_driver.Supervisor.{
  reachable, unreachable, ProviderHealth, PluginConfig, PluginSupervisor, Plugins, health_refusal,
  frozen, frozen_env, launch_generation, launch, replace, current, shutdown,
}
use sandbox_driver.Supervisor.Logged.{Logged, logged, IsReaped}
use sandbox_driver.Supervisor.Steps.{IsOrdered, IsAdmitted}
use sandbox_driver.Supervisor.Runs.{
  Act, obtains, stops, changes, begun, fresh, act_all, run-IsOrdered, run-IsReaped,
}

-- Plugins are numbers. The state is the next one and the first that is still alive.
abbrev System : Type 0
System = ℕ × ℕ

abbrev health_of : ℕ → ProviderHealth
health_of p = record {
  status = if p == 2 then unreachable else reachable;
  message = none;
  missing_permissions = [];
  identity = some (b'a' ∷ []);
}

-- The second plugin is unreachable.
abbrev plugins : Plugins System ℕ
plugins = record {
  launch_plugin =
      λ config s. (ok (record { provider = s.0; path = []; verified = true }), (s.0 + 1, s.1));
  health = λ p s. (ok (health_of p), s);
  shutdown = λ p s. (ok tt, s);
  is_closed = λ p s. ltb p s.1;
}

abbrev config : PluginConfig
config = record { kind = "host"; env = []; inherit_env = (b'k' ∷ []) ∷ [] }

abbrev var : List ℕ → Option (List ℕ)
var key = some (b'v' ∷ [])

abbrev start : System
start = (1, 0)

abbrev launched : PluginSupervisor ℕ
launched = record {
  config = record { kind = "host"; env = (b'k' ∷ [], b'v' ∷ []) ∷ []; inherit_env = [] };
  identity = some (b'a' ∷ []);
  generations = record {
    live =
        some
          (record { provider = 1; number = 1; path = []; verified = true; health = health_of 1 });
    served = 1;
  };
}

abbrev log : Logged System ℕ
log = record { system = (2, 0); launched = 1 ∷ []; stopped = [] }

launch_ok : launch (logged plugins) var config (fresh start) ≡ (ok launched, log)
unfolding launch frozen frozen_env get insert launch_generation health_refusal
launch_ok = refl

-- The first plugin dies, its replacement is unreachable, and the next one serves.
abbrev acts : List (Act System)
acts = obtains ∷ changes (λ s. (s.0, 2)) ∷ obtains ∷ obtains ∷ stops ∷ obtains ∷ []

numbers : map (λ g. g.number) (act_all plugins acts (begun launched log)).served ≡ 3 ∷ 2 ∷ 1 ∷ []
unfolding current replace shutdown launch_generation health_refusal
numbers = refl

run-IsOrdered_example :
    let w = act_all plugins acts (begun launched log) in
    IsOrdered w.served × All (IsAdmitted w.supervisor.config.kind w.supervisor.identity) w.served
run-IsOrdered_example = run-IsOrdered plugins var config start launched log acts launch_ok

run-IsReaped_example :
    let w = act_all plugins acts (begun launched log) in
    IsReaped w.supervisor.generations.live w.log
run-IsReaped_example = run-IsReaped plugins var config start launched log acts launch_ok
