-- ===== src/Core/Rules.antt =====
-- rolen-core/src/rules.rs: the order of the rules of a role, and the walk along the fallback chain of
-- each. A priority, an i32, is its distance from i32::MIN, with the wrap-around of a release build.
-- The 64-bit floats and the clock are a record of operations; texts for people (explanations and
-- reasons) are data types.
pub mod Paused
pub mod Sorting
pub mod Chain
use role_n.Prelude.{
  ℕ, ◌+◌, ◌-◌, ◌%◌, ◌^◌, Bool, true, false, not, ◌&&◌, ◌||◌, Option, none, some, List, [], ◌∷◌,
  ◌++◌, map, if◌then◌else◌, leb, ltb, ◌==◌, nat_eq, list_eq, option_eq, contains, filter,
}
use role_n.Prelude.Dict.{lookup}
use role_n.Core.Types.{Text}
use role_n.Core.Text.{codes, split_once, trim}

pub data ConditionField : Type 0 where
  quota_remaining_pct cost_so_far task_type project time_of_day provider_health : ConditionField

pub data CmpOp : Type 0 where
  lt le eq ne ge gt : CmpOp

pub record Condition : Type 0 where
  pub field : ConditionField
  pub op : CmpOp
  pub value : Text
  pub provider : Option Text

pub record Rule : Type 0 where
  pub id : Text
  pub role : Text
  pub conditions : List Condition
  pub fallback_chain : List Text
  pub min_quota_pct : Option ℕ
  pub priority : ℕ
  pub project_scope : Option Text

-- The key `-r.priority`: the negation of i32::MIN is i32::MIN.
abbrev pub sort_key : Rule → ℕ
sort_key r = (2 ^ 32 - r.priority) % 2 ^ 32

-- `sort_by_key`, which is stable.
pub insert_rule : Rule → List Rule → List Rule
insert_rule r [] = r ∷ []
insert_rule r (s ∷ rules) =
    let rest = insert_rule r rules in
    if leb (sort_key r) (sort_key s) then r ∷ s ∷ rules else s ∷ rest

pub sort_rules : List Rule → List Rule
unfolding insert_rule
sort_rules [] = []
sort_rules (r ∷ rules) = insert_rule r (sort_rules rules)

abbrev pub has_role : Text → Rule → Bool
has_role role r = r.role == role

unfoldable pub for_role : List Rule → Text → List Rule
unfolding sort_rules
for_role rules role = sort_rules (filter (has_role role) rules)

-- `r.priority += PROJECT_OVERRIDE_PRIORITY_BONUS`
abbrev pub promote : Rule → Rule
promote r = record r { priority = (r.priority + 1000) % 2 ^ 32 }

unfoldable pub merged_with : List Rule → List Rule → List Rule
merged_with rules overrides = map promote overrides ++ rules

-- What the conditions use of `f64` and of the clock.
pub record Outside (F : Type 0) : Type 0 where
  pub parse : Text → Option F
  pub of_nat : ℕ → F
  -- `h + m / 60.0`
  pub hours : F → F → F
  pub less : F → F → Bool
  pub less_eq : F → F → Bool
  -- `(a - b).abs() < f64::EPSILON`
  pub near : F → F → Bool
  pub clock : ℕ × ℕ

pub record ProviderState (F : Type 0) : Type 0 where
  pub healthy : Bool
  pub quota_remaining_pct : Option ℕ
  pub cost_so_far : F
  pub models : List Text

pub record EvalContext (F : Type 0) : Type 0 where
  pub task_type : Option Text
  pub project : Option Text
  -- the hour and the minute
  pub now : Option (ℕ × ℕ)
  pub providers : List (Text × ProviderState F)

-- Why an entry of a chain was skipped.
pub data Reason : Type 0 where
  not_registered unhealthy not_in_catalog : Reason
  quota_below : ℕ → ℕ → Reason

pub record Decision : Type 0 where
  pub rule_id : Text
  pub provider : Text
  pub model : Text
  pub skipped : List (Text × Reason)

-- Why a rule did not route.
pub data Note : Type 0 where
  project_scope : Text → Note
  condition_not_met : Condition → Note
  quota_unknown cost_unknown : Text → Note
  invalid_value invalid_chain_entry : Text → Note
  unavailable : ℕ → Note

pub data Outcome (A : Type 0) : Type 0 where
  ok : A → Outcome A
  err : Note → Outcome A

abbrev or_empty : Option Text → Text
or_empty none = []
or_empty (some t) = t

abbrev cmp_str : Text → CmpOp → Text → Bool
cmp_str a eq b = a == b
cmp_str a ne b = not (a == b)
cmp_str a _ b = false

abbrev cmp_bool : Bool → CmpOp → Bool → Bool
cmp_bool a eq true = a
cmp_bool a eq false = not a
cmp_bool a ne true = not a
cmp_bool a ne false = a
cmp_bool a _ b = false

-- `Ok(())` if the test passes.
abbrev met : Condition → Bool → Outcome Unit
met c true = ok tt
met c false = err (condition_not_met c)

module _ {F : Type 0} (out : Outside F) where
  abbrev cmp_f64 : F → CmpOp → F → Bool
  cmp_f64 a lt b = out.less a b
  cmp_f64 a le b = out.less_eq a b
  cmp_f64 a eq b = out.near a b
  cmp_f64 a ne b = not (out.near a b)
  cmp_f64 a ge b = out.less_eq b a
  cmp_f64 a gt b = out.less b a

  abbrev is_healthy : Option (ProviderState F) → Bool
  is_healthy none = false
  is_healthy (some p) = p.healthy

  -- A number of the context against the parsed value of the condition.
  unfoldable pub against : Condition → Outcome F → Option F → Outcome Unit
  against c (err note) target = err note
  against c (ok a) none = err (invalid_value c.value)
  against c (ok a) (some target) = met c (cmp_f64 a c.op target)

  abbrev time_of : Option (ℕ × ℕ) → F
  time_of none = out.hours (out.of_nat out.clock.0) (out.of_nat out.clock.1)
  time_of (some (h, m)) = out.hours (out.of_nat h) (out.of_nat m)

  abbrev hours_of : Option F → Option F → Option F
  hours_of (some h) (some m) = some (out.hours h m)
  hours_of _ _ = none

  abbrev pub parse_parts : Option (Text × Text) → Option F
  parse_parts none = none
  parse_parts (some (h, m)) = hours_of (out.parse h) (out.parse m)

  unfoldable pub parse_hhmm : Text → Option F
  unfolding split_once
  parse_hhmm text = parse_parts (split_once b':' text)

  abbrev quota_of : Text → Option (ProviderState F) → Outcome F
  quota_of pid none = err (quota_unknown pid)
  quota_of pid (some p) = elim p.quota_remaining_pct [
    | none ↦ err (quota_unknown pid)
    | some pct ↦ ok (out.of_nat pct)
  ]

  abbrev cost_of : Text → Option (ProviderState F) → Outcome F
  cost_of pid none = err (cost_unknown pid)
  cost_of pid (some p) = ok p.cost_so_far

  unfoldable pub eval_field : ConditionField → Condition → EvalContext F → Outcome Unit
  unfolding against parse_hhmm
  eval_field task_type c ctx = met c (cmp_str (or_empty ctx.task_type) c.op c.value)
  eval_field project c ctx = met c (cmp_str (or_empty ctx.project) c.op c.value)
  eval_field time_of_day c ctx = against c (ok (time_of ctx.now)) (parse_hhmm c.value)
  eval_field provider_health c ctx =
      let want =
        c.value == codes "ok"
        || c.value == codes "healthy"
        || c.value == codes "true"
        || c.value == codes "1" in
      met c (cmp_bool (is_healthy (lookup (or_empty c.provider) ctx.providers)) c.op want)
  eval_field quota_remaining_pct c ctx =
      let pid = or_empty c.provider in
      against c (quota_of pid (lookup pid ctx.providers)) (out.parse c.value)
  eval_field cost_so_far c ctx =
      let pid = or_empty c.provider in
      against c (cost_of pid (lookup pid ctx.providers)) (out.parse c.value)

  unfoldable pub eval_condition : Condition → EvalContext F → Outcome Unit
  unfolding eval_field
  eval_condition c ctx = eval_field c.field c ctx

  pub check_all : List Condition → EvalContext F → Outcome Unit
  check_all [] ctx = ok tt
  check_all (c ∷ conditions) ctx = elim (eval_condition c ctx) [
    | err note ↦ err note
    | ok _ ↦ check_all conditions ctx
  ]
