-- ===== src/Supervisor/Runs.antt =====
-- Supervisors over any run of calls, shutdowns and changes of the system (supervisor.rs).
use sandbox_driver.Base.{ℕ, ◌≡◌, Option, List, [], ◌∷◌, All}
use sandbox_driver.Error.{ok}
use sandbox_driver.Supervisor.{
  Plugins, PluginConfig, PluginGeneration, PluginSupervisor, frozen, launch_generation, launch,
  current, shutdown,
}
use sandbox_driver.Supervisor.Logged.{Logged, logged, IsReaped}
use sandbox_driver.Supervisor.Launches.{launch_generation-IsLaunched}
use sandbox_driver.Supervisor.Steps.{
  IsOrdered, IsAdmitted, IsSupervised, served_by, current-Outcome, shutdown-Outcome,
  first-IsSupervised,
}

-- A call obtains the current generation, and what it does there changes the system, as a process that
-- dies does.
pub data Act (S : Type 0) : Type 0 where
  obtains stops : Act S
  changes : (S → S) → Act S

pub record World (S P : Type 0) : Type 0 where
  pub supervisor : PluginSupervisor P
  pub log : Logged S P
  pub served : List (PluginGeneration P)

module _ {S P : Type 0} where
  abbrev pub begun : PluginSupervisor P → Logged S P → World S P
  begun v l = record { supervisor = v; log = l; served = [] }

  abbrev pub fresh : S → Logged S P
  fresh s = record { system = s; launched = []; stopped = [] }

  module _ (plugins : Plugins S P) where
    abbrev pub act : Act S → World S P → World S P
    act obtains w =
        let (r, v, l) = current (logged plugins) w.supervisor w.log in
        record { supervisor = v; log = l; served = served_by r w.served }
    act stops w =
        let (r, v, l) = shutdown (logged plugins) w.supervisor w.log in
        record w { supervisor = v; log = l }
    act (changes f) w = record w { log = record w.log { system = f w.log.system } }

    abbrev pub act_all : List (Act S) → World S P → World S P
    act_all [] w = w
    act_all (a ∷ acts) w = act_all acts (act a w)

    act-IsSupervised :
        (a : Act S) (w : World S P)
        → IsSupervised w.supervisor w.log w.served
        → let w1 = act a w in IsSupervised w1.supervisor w1.log w1.served
    act-IsSupervised obtains w h = current-Outcome plugins w.supervisor w.log w.served h
    act-IsSupervised stops w h = shutdown-Outcome plugins w.supervisor w.log w.served h
    act-IsSupervised (changes f) w h = h

    act_all-IsSupervised :
        (acts : List (Act S)) (w : World S P)
        → IsSupervised w.supervisor w.log w.served
        → let w1 = act_all acts w in IsSupervised w1.supervisor w1.log w1.served
    act_all-IsSupervised [] w h = h
    act_all-IsSupervised (a ∷ acts) w h =
        act_all-IsSupervised acts (act a w) (act-IsSupervised a w h)

    launch-IsSupervised :
        (var : List ℕ → Option (List ℕ)) (config : PluginConfig) (s : S) (v : PluginSupervisor P)
        (l : Logged S P)
        → launch (logged plugins) var config (fresh s) ≡ (ok v, l)
        → IsSupervised v l []
    unfolding launch
    launch-IsSupervised var config s v l h =
        first-IsSupervised plugins (frozen var config)
          (launch_generation (logged plugins) (frozen var config) 1 (fresh s)) v l
          (launch_generation-IsLaunched plugins (frozen var config) 1 (fresh s) tt) h

    -- Behind a launch that succeeded, however calls, shutdowns, deaths of processes and other changes
    -- follow one another: of two generations that a supervisor serves, the later one is the same or has
    -- a higher number, and each was healthy enough to serve and reports one resource namespace.
    pub run-IsOrdered :
        (var : List ℕ → Option (List ℕ)) (config : PluginConfig) (s : S) (v : PluginSupervisor P)
        (l : Logged S P) (acts : List (Act S))
        → launch (logged plugins) var config (fresh s) ≡ (ok v, l)
        → let w = act_all acts (begun v l) in
          IsOrdered w.served
          × All (IsAdmitted w.supervisor.config.kind w.supervisor.identity) w.served
    run-IsOrdered var config s v l acts h =
        let (r, (o, b, a, c)) =
          act_all-IsSupervised acts (begun v l) (launch-IsSupervised var config s v l h) in
        (o, a)

    -- Behind a launch that succeeded, whatever follows: every plugin that was launched, also for a
    -- replacement that was refused, was asked to shut down, but for the live one.
    pub run-IsReaped :
        (var : List ℕ → Option (List ℕ)) (config : PluginConfig) (s : S) (v : PluginSupervisor P)
        (l : Logged S P) (acts : List (Act S))
        → launch (logged plugins) var config (fresh s) ≡ (ok v, l)
        → let w = act_all acts (begun v l) in IsReaped w.supervisor.generations.live w.log
    run-IsReaped var config s v l acts h =
        (act_all-IsSupervised acts (begun v l) (launch-IsSupervised var config s v l h)).0
