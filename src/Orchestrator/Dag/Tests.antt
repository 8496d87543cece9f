-- ===== src/Orchestrator/Dag/Tests.antt =====
-- Batches for `validate_dag` of scheduler.rs, and the theorems there.
use role_n.Prelude.{String, ◌≡◌, refl, false, true, none, [], ◌∷◌, List, contains, ◌⊎◌, string_eq}
use role_n.Prelude.Dict.{lookup, insert}
use mathlib.Core.WellFounded.{Acc}
use role_n.Orchestrator.Dag.{
  TaskSpec, BatchSpec, ids, duplicate, unknown, cycle, ok, err, has_duplicate, check_deps,
  cycle_check, validate_dag,
}
use role_n.Orchestrator.Dag.Sound.{Dep, validate_dag_sound}
use role_n.Orchestrator.Dag.Reject.{Unknown, Cyclic, validate_dag_rejects}

abbrev task : String → List String → TaskSpec
task id deps = record {
  id = id;
  role = "dev";
  title = id;
  task = id;
  deps = deps;
  claimed_paths = [];
  provider = none;
  model = none;
}

-- A cycle is rejected, as in `dag_validation_accepts_and_rejects` of scheduler.rs.
abbrev cyclic : BatchSpec
cyclic = task "a" ("b" ∷ []) ∷ task "b" ("a" ∷ []) ∷ []

abbrev diamond : BatchSpec
diamond = task "a" [] ∷ task "b" ("a" ∷ []) ∷ task "c" ("a" ∷ "b" ∷ []) ∷ []

dag_cycle_rejected : validate_dag cyclic ≡ err (cycle "a")
unfolding validate_dag has_duplicate check_deps cycle_check lookup insert
dag_cycle_rejected = refl

unknown_dep_rejected : validate_dag (task "a" ("ghost" ∷ []) ∷ []) ≡ err (unknown "a" "ghost")
unfolding validate_dag has_duplicate check_deps cycle_check lookup insert
unknown_dep_rejected = refl

valid_dag_passes : validate_dag diamond ≡ ok tt
unfolding validate_dag has_duplicate check_deps cycle_check lookup insert
valid_dag_passes = refl

validate_dag_sound_example :
    (has_duplicate (ids diamond) ≡ false)
    × ((d t : String) → Dep diamond d t → contains (ids diamond) d ≡ true)
    × ((t : String) → Acc (Dep diamond) t)
validate_dag_sound_example = validate_dag_sound diamond valid_dag_passes

validate_dag_rejects_example :
    ((cycle "a" ≡ duplicate) × (has_duplicate (ids cyclic) ≡ true))
    ⊎ (Unknown (ids cyclic) cyclic (cycle "a") ⊎ Cyclic cyclic (cycle "a"))
validate_dag_rejects_example = validate_dag_rejects cyclic (cycle "a") dag_cycle_rejected
