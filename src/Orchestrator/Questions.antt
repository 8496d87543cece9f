-- ===== src/Orchestrator/Questions.antt =====
-- `blocked_by_question` of rolen-orchestrator/src/scheduler.rs: does some transitive dependency of a
-- task have a pending question? A search with the set of the ids seen; its recursion is on fuel.
pub mod Search
pub mod Blocked
mod Tests
use role_n.Prelude.{
  ℕ, zero, suc, ◌+◌, String, Bool, true, false, Option, none, some, List, [], ◌∷◌, if◌then◌else◌,
  contains, string_eq, length,
}
use role_n.Prelude.Dict.{add}
use role_n.Orchestrator.Dag.{TaskSpec, BatchSpec, task_of}

-- `true`, `false` with the set `seen` that is left, and no fuel.
pub data Walk : Type 0 where
  found : Walk
  clear : List String → Walk
  no_fuel : Walk

abbrev pub after : Walk → (List String → Walk) → Walk
after found k = found
after (clear seen) k = k seen
after no_fuel k = no_fuel

-- The `for` loop over the dependencies of one task.
pub walk_deps : (String → List String → Walk) → List String → List String → List String → Walk
walk_deps f pending [] seen = clear seen
walk_deps f pending (dep ∷ deps) seen =
    let rest = walk_deps f pending deps in
    if contains pending dep
    then found
    else if contains seen dep
    then rest seen
    else after (f dep (add dep seen)) rest

abbrev pub walk_task :
    (String → List String → Walk) → List String → Option TaskSpec → List String → Walk
walk_task f pending none seen = clear seen
walk_task f pending (some task) seen = walk_deps f pending task.deps seen

pub walk : ℕ → BatchSpec → List String → String → List String → Walk
walk zero spec pending id seen = no_fuel
walk (suc fuel) spec pending id seen =
    walk_task (walk fuel spec pending) pending (task_of spec id) seen

abbrev pub is_found : Walk → Bool
is_found found = true
is_found _ = false

unfoldable pub blocked_by_question : BatchSpec → String → List String → Bool
unfolding walk walk_deps
blocked_by_question spec id [] = false
blocked_by_question spec id (q ∷ pending) =
    is_found (walk (length spec + 2) spec (q ∷ pending) id [])
