-- ===== src/Supervisor.antt =====
-- crates/sandbox-driver-protocol/src/supervisor.rs: `PluginSupervisor`, which keeps at most one live
-- plugin. The launch of a plugin and the process that serves it are an interface over the state of the
-- system; of a plugin's own methods it has those that the supervisor itself calls. The prefix of
-- executables, capabilities and traces are left out, and `u64` numbers are below 2^64.
pub mod Logged
pub mod Launches
pub mod Steps
pub mod Runs
pub mod Env
pub mod Tests
use sandbox_driver.Base.{
  ℕ, ◌+◌, Bool, true, false, Option, none, some, List, [], ◌∷◌, ◌++◌, String, if◌then◌else◌,
}
use sandbox_driver.Error.{Error, AuthError, ProviderError, provider, auth, Result, ok, err}
use sandbox_driver.GitBatch.{texts_equal}
use sandbox_driver.GitFailures.{bytes_of}
use sandbox_driver.Status.{Labels, get, insert}

-- `HealthStatus`, whose `Ok` is `reachable` here.
pub data HealthStatus : Type 0 where
  reachable unreachable unauthorized unchecked : HealthStatus

pub record ProviderHealth : Type 0 where
  pub status : HealthStatus
  pub message : Option (List ℕ)
  pub missing_permissions : List (List ℕ)
  pub identity : Option (List ℕ)

pub record PluginConfig : Type 0 where
  pub kind : String
  pub env : Labels
  pub inherit_env : List (List ℕ)

pub record Launched (P : Type 0) : Type 0 where
  pub provider : P
  pub path : List ℕ
  pub verified : Bool

pub record PluginGeneration (P : Type 0) : Type 0 where
  pub provider : P
  pub number : ℕ
  pub path : List ℕ
  pub verified : Bool
  pub health : ProviderHealth

pub record Generations (P : Type 0) : Type 0 where
  pub live : Option (PluginGeneration P)
  pub served : ℕ

pub record PluginSupervisor (P : Type 0) : Type 0 where
  pub config : PluginConfig
  pub identity : Option (List ℕ)
  pub generations : Generations P

-- `launch_plugin`, and the methods of the provider `P` that it gives, over the system's state `S`.
pub record Plugins (S P : Type 0) : Type 0 where
  pub launch_plugin : PluginConfig → S → Result (Launched P) × S
  pub health : P → S → Result ProviderHealth × S
  pub shutdown : P → S → Result {0} Unit × S
  pub is_closed : P → S → Bool

abbrev pub or_default : List ℕ → Option (List ℕ) → List ℕ
or_default default none = default
or_default default (some text) = text

unfoldable pub health_refusal : String → ProviderHealth → Option Error
health_refusal kind health = elim health.status [
  | reachable ↦ none
  | unreachable ↦ some (
      provider (record {
        provider = kind;
        code = some "unreachable";
        message =
            bytes_of "the plugin's backend is unreachable: "
            ++ or_default (bytes_of "the plugin gave no detail") health.message;
        retryable = false;
      }))
  | unauthorized ↦
      some
        (auth (record { provider = kind; reason = "the plugin's backend rejected its credential" }))
  | unchecked ↦ none
]

abbrev pub same_identity : Option (List ℕ) → Option (List ℕ) → Bool
same_identity none none = true
same_identity (some a) (some b) = texts_equal a b
same_identity _ _ = false

abbrev pub identity_changed : String → Error
identity_changed kind = provider (record {
  provider = kind;
  code = some "identity_changed";
  message = bytes_of "recovery does not continue into another account";
  retryable = false;
})

-- The environment that `launch` freezes: `var` is `env::var`, `env` the explicit values.
abbrev pub forwarded : List ℕ → Option (List ℕ) → Option (List ℕ) → Labels → Labels
forwarded key (some explicit) value env = env
forwarded key none none env = env
forwarded key none (some value) env = insert key value env

unfoldable pub frozen_env : (List ℕ → Option (List ℕ)) → List (List ℕ) → Labels → Labels
frozen_env var [] env = env
frozen_env var (key ∷ keys) env = frozen_env var keys (forwarded key (get key env) (var key) env)

unfoldable pub frozen : (List ℕ → Option (List ℕ)) → PluginConfig → PluginConfig
frozen var config = record config {
  env = frozen_env var config.inherit_env config.env;
  inherit_env = [];
}

abbrev pub set_live :
    {P : Type 0} → Option (PluginGeneration P) → PluginSupervisor P → PluginSupervisor P
set_live live v = record v { generations = record v.generations { live = live } }

module _ {S P : Type 0} (plugins : Plugins S P) where
  abbrev pub on_refusal :
      ℕ → Launched P → ProviderHealth → Option Error → S → Result (PluginGeneration P) × S
  on_refusal number launched health (some refusal) s =
      (err refusal, (plugins.shutdown launched.provider s).1)
  on_refusal number launched health none s = (
    ok (record {
      provider = launched.provider;
      number = number;
      path = launched.path;
      verified = launched.verified;
      health = health;
    }),
    s,
  )

  abbrev pub on_health :
      String → ℕ → Launched P → Result ProviderHealth × S → Result (PluginGeneration P) × S
  on_health kind number launched (err e, s) = (err e, (plugins.shutdown launched.provider s).1)
  on_health kind number launched (ok health, s) =
      on_refusal number launched health (health_refusal kind health) s

  abbrev pub on_launched : String → ℕ → Result (Launched P) × S → Result (PluginGeneration P) × S
  on_launched kind number (err e, s) = (err e, s)
  on_launched kind number (ok launched, s) =
      on_health kind number launched (plugins.health launched.provider s)

  unfoldable pub launch_generation : PluginConfig → ℕ → S → Result (PluginGeneration P) × S
  launch_generation config number s =
      on_launched config.kind number (plugins.launch_plugin config s)

  abbrev pub on_first :
      PluginConfig → Result (PluginGeneration P) × S → Result (PluginSupervisor P) × S
  on_first config (err e, s) = (err e, s)
  on_first config (ok first, s) = (
    ok (record {
      config = config;
      identity = first.health.identity;
      generations = record { live = some first; served = first.number };
    }),
    s,
  )

  unfoldable pub launch :
      (List ℕ → Option (List ℕ)) → PluginConfig → S → Result (PluginSupervisor P) × S
  launch var config s = on_first (frozen var config) (launch_generation (frozen var config) 1 s)

  -- The live generation whose transport is open.
  abbrev pub open_live : Option (PluginGeneration P) → S → Option (PluginGeneration P)
  open_live none s = none
  open_live (some g) s = if plugins.is_closed g.provider s then none else some g

  abbrev pub retire : Option (PluginGeneration P) → S → S
  retire none s = s
  retire (some closed) s = (plugins.shutdown closed.provider s).1

  abbrev pub on_replacement :
      PluginSupervisor P
      → Result (PluginGeneration P) × S
      → Result (PluginGeneration P) × PluginSupervisor P × S
  on_replacement v (err e, s) = (err e, v, s)
  on_replacement v (ok replacement, s) =
      if same_identity replacement.health.identity v.identity
      then (
        ok replacement,
        record v { generations = record { live = some replacement; served = replacement.number } },
        s,
      )
      else (err (identity_changed v.config.kind), v, (plugins.shutdown replacement.provider s).1)

  unfoldable pub replace :
      PluginSupervisor P → S → Result (PluginGeneration P) × PluginSupervisor P × S
  replace v s =
      let s1 = retire v.generations.live s in
      on_replacement (set_live none v) (launch_generation v.config (v.generations.served + 1) s1)

  abbrev pub on_open :
      Option (PluginGeneration P)
      → PluginSupervisor P
      → S
      → Result (PluginGeneration P) × PluginSupervisor P × S
  on_open (some live) v s = (ok live, v, s)
  on_open none v s = replace v s

  unfoldable pub current :
      PluginSupervisor P → S → Result (PluginGeneration P) × PluginSupervisor P × S
  current v s = on_open (open_live v.generations.live s) v s

  abbrev pub on_stop :
      PluginSupervisor P
      → Option (PluginGeneration P)
      → S
      → Result {0} Unit × PluginSupervisor P × S
  on_stop v none s = (ok tt, v, s)
  on_stop v (some generation) s =
      let (r, s1) = plugins.shutdown generation.provider s in (r, set_live none v, s1)

  unfoldable pub shutdown : PluginSupervisor P → S → Result {0} Unit × PluginSupervisor P × S
  shutdown v s = on_stop v v.generations.live s
