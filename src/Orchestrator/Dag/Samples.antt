-- ===== src/Orchestrator/Dag/Samples.antt =====
-- A batch of two independent tasks, for the tests of the scheduler.
use role_n.Prelude.{String, ◌≡◌, refl, none, [], ◌∷◌, string_eq}
use role_n.Prelude.Dict.{lookup, insert}
use role_n.Orchestrator.Dag.{
  TaskSpec, BatchSpec, ok, has_duplicate, check_deps, cycle_check, validate_dag,
}

abbrev pub claimer : String → TaskSpec
claimer id = record {
  id = id;
  role = "coder";
  title = id;
  task = "do it";
  deps = [];
  claimed_paths = "x.rs" ∷ [];
  provider = none;
  model = none;
}

abbrev pub pair : BatchSpec
pair = claimer "a" ∷ claimer "b" ∷ []

pub pair_accepted : validate_dag pair ≡ ok tt
unfolding validate_dag has_duplicate check_deps cycle_check lookup insert
pair_accepted = refl
