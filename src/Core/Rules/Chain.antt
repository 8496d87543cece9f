-- ===== src/Core/Rules/Chain.antt =====
-- `walk_chain` and `decide` of rolen-core/src/rules.rs: the first entry of a fallback chain that can
-- be used, and the first rule of the role that has one.
pub mod Route
pub mod Readable
mod Tests
use role_n.Prelude.{
  ℕ, Bool, true, false, not, ◌&&◌, ◌||◌, Option, none, some, List, [], ◌∷◌, ◌++◌, if◌then◌else◌,
  ltb, ◌==◌, nat_eq, list_eq, option_eq, contains, length,
}
use role_n.Prelude.Dict.{lookup}
use role_n.Core.Types.{Text}
use role_n.Core.Text.{split_once, trim}
use role_n.Core.Rules.{
  Rule, for_role, Outside, ProviderState, EvalContext, Reason, not_registered, unhealthy,
  not_in_catalog, quota_below, Decision, Note, project_scope, invalid_chain_entry, unavailable,
  Outcome, ok, err, check_all,
}

-- What becomes of one entry of a chain.
pub data Entry : Type 0 where
  malformed : Entry
  skip : Reason → Entry
  use_model : Text → Text → Entry

-- `Some(pct) if pct < min`, with a minimum above 0.
abbrev pub too_little : Option ℕ → Option ℕ → Bool
too_little none quota = false
too_little (some min) none = false
too_little (some min) (some pct) = ltb 0 min && ltb pct min

abbrev or_zero : Option ℕ → ℕ
or_zero none = 0
or_zero (some n) = n

abbrev pub in_catalog : List Text → Text → Bool
in_catalog [] model = true
in_catalog (m ∷ models) model = contains (m ∷ models) model

module _ {F : Type 0} where
  try_provider : Rule → Text → Text → Option (ProviderState F) → Entry
  try_provider rule pid model none = skip not_registered
  try_provider rule pid model (some state) =
      if not state.healthy
      then skip unhealthy
      else if too_little rule.min_quota_pct state.quota_remaining_pct
      then skip (quota_below (or_zero state.quota_remaining_pct) (or_zero rule.min_quota_pct))
      else if not (in_catalog state.models model)
      then skip not_in_catalog
      else use_model pid model

  try_parts : Rule → EvalContext F → Option (Text × Text) → Entry
  unfolding try_provider trim
  try_parts rule ctx none = malformed
  try_parts rule ctx (some (p, m)) =
      try_provider rule (trim p) (trim m) (lookup (trim p) ctx.providers)

  pub try_entry : Rule → EvalContext F → Text → Entry
  unfolding try_parts split_once
  try_entry rule ctx entry = try_parts rule ctx (split_once b'/' entry)

  -- The loop over the entries that are left, with what was skipped before them.
  pub walk_entries : Rule → EvalContext F → List Text → List (Text × Reason) → Outcome Decision
  walk_entries rule ctx [] skipped = err (unavailable (length rule.fallback_chain))
  walk_entries rule ctx (entry ∷ entries) skipped = elim (try_entry rule ctx entry) [
    | malformed ↦ err (invalid_chain_entry entry)
    | skip reason ↦ walk_entries rule ctx entries (skipped ++ (entry, reason) ∷ [])
    | use_model pid model ↦
        ok (record { rule_id = rule.id; provider = pid; model = model; skipped = skipped })
  ]

  pub walk_chain : Rule → EvalContext F → Outcome Decision
  unfolding walk_entries
  walk_chain rule ctx = walk_entries rule ctx rule.fallback_chain []

abbrev pub in_scope : Option Text → Option Text → Bool
in_scope none project = true
in_scope (some scope) project = project == some scope

abbrev scope_of : Option Text → Text
scope_of none = []
scope_of (some scope) = scope

-- `NoRoute`: the role is paused, has no rule, or none of its rules routes.
pub data Routing : Type 0 where
  routed : Decision → List (Text × Note) → Routing
  paused no_rule : Routing
  no_route : List (Text × Note) → Routing

module _ {F : Type 0} (out : Outside F) where
  after_conditions : Rule → EvalContext F → Outcome Unit → Outcome Decision
  unfolding walk_chain
  after_conditions rule ctx (err note) = err note
  after_conditions rule ctx (ok _) = walk_chain rule ctx

  -- One rule: its scope, its conditions, its chain.
  pub try_rule : Rule → EvalContext F → Outcome Decision
  unfolding after_conditions check_all
  try_rule rule ctx =
      if in_scope rule.project_scope ctx.project
      then after_conditions rule ctx (check_all out rule.conditions ctx)
      else err (project_scope (scope_of rule.project_scope))

  pub try_rules : List Rule → EvalContext F → List (Text × Note) → Routing
  try_rules [] ctx notes = no_route notes
  try_rules (rule ∷ rules) ctx notes = elim (try_rule rule ctx) [
    | err note ↦ try_rules rules ctx (notes ++ (rule.id, note) ∷ [])
    | ok decision ↦ routed decision notes
  ]

  abbrev decide_among : List Rule → EvalContext F → Routing
  decide_among [] ctx = no_rule
  decide_among (rule ∷ rules) ctx = try_rules (rule ∷ rules) ctx []

  -- The paused roles are read from their file.
  pub decide : List Text → List Rule → Text → EvalContext F → Routing
  unfolding try_rules try_rule for_role
  decide paused_roles rules role ctx =
      if contains paused_roles role then paused else decide_among (for_role rules role) ctx
