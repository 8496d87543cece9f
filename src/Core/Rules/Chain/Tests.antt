-- ===== src/Core/Rules/Chain/Tests.antt =====
-- Rules for one role over two providers, and the theorems on rules.rs.
use role_n.Prelude.{ℕ, Bool, true, false, none, some, [], ◌∷◌, nat_eq, list_eq}
use role_n.Core.Types.{Text}
use role_n.Core.Text.{codes}
use role_n.Core.Rules.{Rule, Outside, ProviderState, EvalContext, unhealthy, Decision}

abbrev rule : ℕ → Rule
rule priority = record {
  id = codes "r";
  role = codes "coder";
  conditions = [];
  fallback_chain = codes "kimi/k2" ∷ codes "glm/5" ∷ [];
  min_quota_pct = none;
  priority = priority;
  project_scope = none;
}

-- The floats by natural numbers: the rules above do not compare any.
abbrev numbers : Outside ℕ
numbers = record {
  parse = λ t. none;
  of_nat = λ n. n;
  hours = λ h m. h;
  less = λ a b. false;
  less_eq = λ a b. false;
  near = λ a b. true;
  clock = (0, 0);
}

abbrev provider : Bool → ProviderState ℕ
provider healthy = record {
  healthy = healthy;
  quota_remaining_pct = some 0;
  cost_so_far = 0;
  models = [];
}

abbrev ctx : EvalContext ℕ
ctx = record {
  task_type = none;
  project = none;
  now = none;
  providers = (codes "kimi", provider false) ∷ (codes "glm", provider true) ∷ [];
}

abbrev decision : Decision
decision = record {
  rule_id = codes "r";
  provider = codes "glm";
  model = codes "5";
  skipped = (codes "kimi/k2", unhealthy) ∷ [];
}
