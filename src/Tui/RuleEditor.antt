-- ===== src/Tui/RuleEditor.antt =====
-- rolen-tui/src/rule_editor.rs: the editor of routing rules and its two smaller dialogs. A dialog is
-- its state, with the texts and the selections that the user has set in its controls; a button is a
-- function on it. Where the controls are drawn is not modelled. The rules on disk and whether they can
-- be written are parameters.
pub mod Form
pub mod Edit
pub mod Chain
pub mod Accepted
pub mod Saved
mod Tests
use role_n.Prelude.{
  ℕ, zero, suc, ◌+◌, ◌-◌, ◌^◌, min, String, Bool, true, false, not, ◌&&◌, ◌||◌, Option, none, some,
  List, [], ◌∷◌, ◌++◌, map, if◌then◌else◌, ltb, leb, ◌==◌, nat_eq, list_eq, contains, find, length,
  get_elem?, any,
}
use role_n.Core.Types.{Text}
use role_n.Core.Text.{codes, is_whitespace, is_empty, split_once, trim}
use role_n.Core.Text.Numbers.{show, show_i32, parse_below, parse_i32}
use role_n.Core.Rules.{
  ConditionField, quota_remaining_pct, cost_so_far, task_type, project, time_of_day,
  provider_health, CmpOp, lt, le, eq, ne, ge, gt, Condition, Rule, Outside,
}

abbrev pub field_name : ConditionField → Text
field_name quota_remaining_pct = codes "quota_remaining_pct"
field_name cost_so_far = codes "cost_so_far"
field_name task_type = codes "task_type"
field_name project = codes "project"
field_name time_of_day = codes "time_of_day"
field_name provider_health = codes "provider_health"

abbrev pub op_symbol : CmpOp → Text
op_symbol lt = codes "<"
op_symbol le = codes "<="
op_symbol eq = codes "=="
op_symbol ne = codes "!="
op_symbol ge = codes ">="
op_symbol gt = codes ">"

abbrev pub condition_fields : List ConditionField
condition_fields =
    quota_remaining_pct ∷ cost_so_far ∷ task_type ∷ project ∷ time_of_day ∷ provider_health ∷ []

abbrev pub condition_ops : List CmpOp
condition_ops = lt ∷ le ∷ eq ∷ ne ∷ ge ∷ gt ∷ []

-- What the status line says.
pub data Status : Type 0 where
  pick_a_provider model_required : Status
  value_required not_a_number not_hhmm : Status
  id_required id_whitespace pick_a_role bad_priority bad_min_quota empty_chain : Status
  select_entry select_condition : Status
  load_failed save_failed : Status
  id_exists : Text → Status

-- A dialog stays open with a status, or closes with its response.
pub data Closing (A : Type 0) : Type 0 where
  stays : Status → Closing A
  exits : A → Closing A
  -- an index that is out of range
  panics : Closing A

abbrev pub text_or_empty : Option Text → Text
text_or_empty none = []
text_or_empty (some t) = t

-- The fallback-chain entry: the combo box lists the providers.
pub record ChainEntryDialog : Type 0 where
  pub provider : Option ℕ
  pub model : Text
  pub providers : List (Text × List Text)

abbrev pub entry_of : Option (Text × List Text) → Text → Closing Text
entry_of none model = panics
entry_of (some (id, models)) model = exits (id ++ b'/' ∷ model)

unfoldable pub add_entry : ChainEntryDialog → Closing Text
unfolding trim
add_entry d = elim d.provider [
  | none ↦ stays pick_a_provider
  | some i ↦
      let model = trim d.model in
      if is_empty model then stays model_required else entry_of (get_elem? d.providers i) model
]

pub record ConditionDialog : Type 0 where
  pub field : Option ℕ
  pub op : Option ℕ
  pub value : Text
  -- the value of the selected item: empty for no provider
  pub provider : Text

-- `combo_value`: the value of the selected item.
abbrev combo_value : List Text → Option ℕ → Text
combo_value items none = []
combo_value items (some i) = text_or_empty (get_elem? items i)

abbrev field_or : Option ConditionField → ConditionField
field_or none = task_type
field_or (some f) = f

abbrev op_or : Option CmpOp → CmpOp
op_or none = eq
op_or (some o) = o

abbrev pub below : ℕ → Text → Bool
below limit text = elim (parse_below (2 ^ 32) text) [ none ↦ false | some n ↦ ltb n limit ]

abbrev pub is_hhmm : Text → Bool
is_hhmm value = elim (split_once b':' value) [
  | none ↦ false
  | some (h, m) ↦ below 24 h && below 60 m
]

module _ {F : Type 0} (out : Outside F) where
  abbrev is_number : Text → Bool
  is_number value = elim (out.parse value) [ none ↦ false | some _ ↦ true ]

  -- The value, as the rule engine will parse it.
  unfoldable pub invalid : ConditionField → Text → Option Status
  unfolding split_once parse_below
  invalid quota_remaining_pct value = if is_number value then none else some not_a_number
  invalid cost_so_far value = if is_number value then none else some not_a_number
  invalid time_of_day value = if is_hhmm value then none else some not_hhmm
  invalid task_type value = none
  invalid project value = none
  invalid provider_health value = none

  unfoldable pub finish : ConditionField → CmpOp → Text → Text → Option Status → Closing Condition
  finish f o value provider (some status) = stays status
  finish f o value provider none = exits (record {
    field = f;
    op = o;
    value = value;
    provider = if is_empty provider then none else some provider;
  })

  unfoldable pub add_condition : ConditionDialog → Closing Condition
  unfolding trim invalid finish
  add_condition d =
      let name = combo_value (map field_name condition_fields) d.field in
      let symbol = combo_value (map op_symbol condition_ops) d.op in
      let f = field_or (find (λ f. field_name f == name) condition_fields) in
      let o = op_or (find (λ o. op_symbol o == symbol) condition_ops) in
      let value = trim d.value in
      if is_empty value then stays value_required else finish f o value d.provider (invalid f value)

-- The editor: what is edited, and the contents of the controls.
pub record RuleEditorDialog : Type 0 where
  pub editing : Option Rule
  pub chain : List Text
  pub conditions : List Condition
  -- the selections of the two list boxes
  pub chain_at : Option ℕ
  pub cond_at : Option ℕ
  pub id : Text
  pub roles : List Text
  pub role : Option ℕ
  pub priority : Text
  pub min_quota : Text
  pub scope : Text
  pub status : Option Status
  pub closed : Bool

abbrev pub built_in_roles : List Text
built_in_roles =
    codes "planner"
    ∷ codes "summarizer"
    ∷ codes "coder"
    ∷ codes "tool-runner"
    ∷ codes "image-reader"
    ∷ codes "image-writer"
    ∷ codes "doc-reader"
    ∷ codes "doc-writer"
    ∷ codes "reviewer"
    ∷ codes "interrogator"
    ∷ []

abbrev or_zero : Option ℕ → ℕ
or_zero none = 0
or_zero (some i) = i

-- A list box that is filled again: `set_index(select.unwrap_or(0).min(len - 1))`, if it has items.
abbrev pub refreshed : ℕ → Option ℕ → Option ℕ
refreshed zero select = none
refreshed (suc n) select = some (min (or_zero select) n)

-- `position`
pub position : Text → List Text → Option ℕ
position role [] = none
position role (r ∷ roles) =
    let rest = position role roles in
    if r == role then some 0 else elim rest [ none ↦ none | some i ↦ some (suc i) ]

-- The roles of the rules that are not among the choices yet.
abbrev pub push_roles : List Rule → List Text → List Text
push_roles [] roles = roles
push_roles (r ∷ rules) roles =
    push_roles rules (if contains roles r.role then roles else roles ++ r.role ∷ [])

abbrev loaded_rules : Option (List Rule) → List Rule
loaded_rules none = []
loaded_rules (some rules) = rules

abbrev pub printed : Option ℕ → Text
printed none = []
printed (some q) = show q

-- `RuleEditorDialog::new`, with the rules that could be loaded.
unfoldable pub open_editor : Option (List Rule) → Option Rule → RuleEditorDialog
open_editor disk none = record {
  editing = none;
  chain = [];
  conditions = [];
  chain_at = none;
  cond_at = none;
  id = [];
  roles = push_roles (loaded_rules disk) built_in_roles;
  role = some 0;
  priority = codes "0";
  min_quota = [];
  scope = [];
  status = none;
  closed = false;
}
open_editor disk (some r) =
    let roles = push_roles (loaded_rules disk ++ r ∷ []) built_in_roles in
    record {
      editing = some r;
      chain = r.fallback_chain;
      conditions = r.conditions;
      chain_at = refreshed (length r.fallback_chain) none;
      cond_at = refreshed (length r.conditions) none;
      id = r.id;
      roles = roles;
      role = some (or_zero (position r.role roles));
      priority = show_i32 r.priority;
      min_quota = printed r.min_quota_pct;
      scope = text_or_empty r.project_scope;
      status = none;
      closed = false;
    }
