-- ===== src/Fence/Groups.antt =====
-- `ProcessGroups` (crates/sandbox-driver-host/src/fence/sentinel.rs): admission and the current generation.
use sandbox_driver.Base.{
  ℕ, Bool, true, false, Option, none, some, List, [], ◌∷◌, ◌++◌, map, String, if◌then◌else◌,
}
use sandbox_driver.Error.{Error, provider, Result, ok, err, ◌>>=◌}
use sandbox_driver.GitFailures.{bytes_of}
use sandbox_driver.Fence.{held, PinnedGroup, reap_all}

pub record Generation : Type 0 where
  pub directory : String
  pub groups : List PinnedGroup

pub record GroupState : Type 0 where
  pub accepting_work : Bool
  pub generation : Option Generation

-- What the system answers in a drain: the directories and ids of the saved generations, which are
-- fenced; how the killing ended before the deadline; each child's wait; whether the ids are gone by the
-- deadline; and the removal of the directories.
pub record Answers : Type 0 where
  pub fence_saved : Result (List String × List ℕ)
  pub killed : Result {0} Unit
  pub wait : ℕ → Result {0} Unit
  pub await_gone : List ℕ → Result {0} Unit
  pub remove_dirs : List String → Result {0} Unit

abbrev pub reap_behind :
    Result {0} Unit → Answers → List PinnedGroup → Result {0} Unit × List PinnedGroup
reap_behind (err e) answers groups = (err e, groups)
reap_behind (ok u) answers groups = reap_all answers.wait groups

unfoldable pub kill_and_reap_owned : Answers → List PinnedGroup → Result {0} Unit × List PinnedGroup
kill_and_reap_owned answers groups = reap_behind answers.killed answers groups

abbrev pub with_groups :
    Generation → Result {0} Unit × List PinnedGroup → Result {0} Unit × Option Generation
with_groups g (r, groups) = (r, some (record g { groups = groups }))

abbrev pub drain_owned : Answers → Option Generation → Result {0} Unit × Option Generation
drain_owned answers none = (ok tt, none)
drain_owned answers (some g) = with_groups g (kill_and_reap_owned answers g.groups)

abbrev pub owned_ids : Option Generation → List ℕ
owned_ids none = []
owned_ids (some g) = map (λ (x : PinnedGroup). x.pgid) g.groups

-- The generation is forgotten where all went well.
abbrev pub forget_if : Result {0} Unit → Option Generation → Result {0} Unit × Option Generation
forget_if (err e) generation = (err e, generation)
forget_if (ok u) generation = (ok tt, none)

abbrev pub and_gone :
    Answers
    → List String
    → List ℕ
    → Result {0} Unit × Option Generation
    → Result {0} Unit × Option Generation
and_gone answers paths ids (err e, generation) = (err e, generation)
and_gone answers paths ids (ok u, generation) =
    forget_if (answers.await_gone ids >>= (λ gone. answers.remove_dirs paths)) generation

abbrev pub drain_saved :
    Answers
    → Result (List String × List ℕ)
    → Option Generation
    → Result {0} Unit × Option Generation
drain_saved answers (err e) generation = (err e, generation)
drain_saved answers (ok (paths, ids)) generation =
    and_gone answers paths (ids ++ owned_ids generation) (drain_owned answers generation)

abbrev pub with_generation :
    GroupState → Result {0} Unit × Option Generation → Result {0} Unit × GroupState
with_generation s (r, generation) = (r, record s { generation = generation })

unfoldable pub drain : Answers → GroupState → Result {0} Unit × GroupState
drain answers s = with_generation s (drain_saved answers answers.fence_saved s.generation)

unfoldable pub stop : Answers → GroupState → Result {0} Unit × GroupState
stop answers s = drain answers (record s { accepting_work = false })

abbrev pub accept_if : Result {0} Unit × GroupState → Result {0} Unit × GroupState
accept_if (err e, s) = (err e, s)
accept_if (ok u, s) = (ok tt, record s { accepting_work = true })

unfoldable pub start : Answers → GroupState → Result {0} Unit × GroupState
start answers s = accept_if (if s.accepting_work then (ok tt, s) else drain answers s)

-- `generation_or_create`, with the directory that the system made
abbrev pub generation_or : Result String → Option Generation → Result Generation
generation_or created (some g) = ok g
generation_or (err e) none = err e
generation_or (ok directory) none = ok (record { directory = directory; groups = [] })

abbrev pub spawn_in : Result ℕ → Result Generation → GroupState → Result ℕ × GroupState
spawn_in spawned (err e) s = (err e, s)
spawn_in (err e) (ok g) s = (err e, record s { generation = some g })
spawn_in (ok pgid) (ok g) s =
    let group : PinnedGroup = record { pgid = pgid; pin = held } in
    (ok pgid, record s { generation = some (record g { groups = g.groups ++ (group ∷ []) }) })

abbrev pub stopped_error : Error
stopped_error = provider (record {
  provider = "host";
  code = none;
  message = bytes_of "cannot execute in a stopped sandbox";
  retryable = false;
})

-- `spawn`, up to the handle that it returns: what the system made of the directory and of the sentinel.
unfoldable pub spawn : Result String → Result ℕ → GroupState → Result ℕ × GroupState
spawn created spawned s =
    if s.accepting_work
    then spawn_in spawned (generation_or created s.generation) s
    else (err stopped_error, s)
