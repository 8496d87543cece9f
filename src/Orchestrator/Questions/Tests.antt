-- ===== src/Orchestrator/Questions/Tests.antt =====
-- The test `question_blocks_transitive_dependents_only` of scheduler.rs, and the theorem there.
use role_n.Prelude.{String, ◌≡◌, ◌↔◌, refl, true, false, none, List, [], ◌∷◌, contains, string_eq}
use role_n.Prelude.Dict.{add}
use role_n.Orchestrator.Dag.{TaskSpec, BatchSpec}
use role_n.Orchestrator.Dag.Reject.{Depends}
use role_n.Orchestrator.Questions.{blocked_by_question}
use role_n.Orchestrator.Questions.Blocked.{blocked_iff}

abbrev task : String → List String → TaskSpec
task id deps = record {
  id = id;
  role = "coder";
  title = id;
  task = "do it";
  deps = deps;
  claimed_paths = [];
  provider = none;
  model = none;
}

abbrev chain : BatchSpec
chain = task "a" [] ∷ task "b" ("a" ∷ []) ∷ task "c" ("b" ∷ []) ∷ task "d" [] ∷ []

question_blocks_transitive_dependents_only :
    (blocked_by_question chain "a" ("a" ∷ []) ≡ false)
    × (blocked_by_question chain "b" ("a" ∷ []) ≡ true)
    × (blocked_by_question chain "c" ("a" ∷ []) ≡ true)
    × (blocked_by_question chain "d" ("a" ∷ []) ≡ false)
    × (blocked_by_question chain "b" [] ≡ false)
unfolding blocked_by_question add
question_blocks_transitive_dependents_only = (refl, refl, refl, refl, refl)

blocked_iff_example :
    (blocked_by_question chain "c" ("a" ∷ []) ≡ true)
    ↔ ((d : String) × Depends chain d "c" × (contains ("a" ∷ []) d ≡ true))
blocked_iff_example = blocked_iff chain "c" ("a" ∷ [])
