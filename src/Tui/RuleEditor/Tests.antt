-- ===== src/Tui/RuleEditor/Tests.antt =====
-- The rule editor on concrete rules and actions.
use role_n.Prelude.{
  ℕ, ◌+◌, ◌*◌, ◌^◌, ◌≡◌, refl, true, false, none, some, List, [], ◌∷◌, nat_eq, list_eq, arith, ltb,
}
use role_n.Core.Types.{Text}
use role_n.Core.Text.{codes, split_once, trim, is_empty}
use role_n.Core.Text.Numbers.{parse_below}
use role_n.Core.Rules.{time_of_day, gt, Condition, Rule, Outside, EvalContext}
use role_n.Core.Rules.Chain.{try_rule}
use role_n.Core.Rules.Chain.Readable.{is_malformed}
use role_n.Tui.RuleEditor.{
  RuleEditorDialog, open_editor, ChainEntryDialog, ConditionDialog, exits, stays, not_hhmm,
  add_entry, add_condition, invalid, finish,
}
use role_n.Tui.RuleEditor.Form.{good, build_rule, build_rule-open_editor}
use role_n.Tui.RuleEditor.Edit.{
  RulesFile, on_save, Action, add, add_cond, up, type_id, acts, chain_move,
}
use role_n.Tui.RuleEditor.Accepted.{accepted_rule}
use role_n.Tui.RuleEditor.Saved.{Ending, on_save_lem}

abbrev rule : Rule
rule = record {
  id = codes "r1";
  role = codes "coder";
  conditions = [];
  fallback_chain = codes "kimi/k2" ∷ codes "glm/5" ∷ [];
  min_quota_pct = some 20;
  priority = 2 ^ 31 + 7;
  project_scope = some (codes "shop");
}

shop-trimmed : trim (codes "shop") ≡ codes "shop"
unfolding trim
shop-trimmed = refl

build_rule-open_editor_example : build_rule (open_editor none (some rule)) ≡ good rule
build_rule-open_editor_example =
    build_rule-open_editor none rule (omega arith) (omega arith) (shop-trimmed, refl) refl refl

-- The floats by natural numbers, read from digits.
abbrev numbers : Outside ℕ
numbers = record {
  parse = parse_below (2 ^ 32);
  of_nat = λ n. n;
  hours = λ h m. h * 60 + m;
  less = ltb;
  less_eq = λ a b. ltb a (b + 1);
  near = λ a b. false;
  clock = (12, 30);
}

abbrev ctx : EvalContext ℕ
ctx = record { task_type = none; project = none; now = some (9, 5); providers = [] }

abbrev entry_dialog : ChainEntryDialog
entry_dialog = record {
  provider = some 1;
  model = codes " hf.co/m ";
  providers = (codes "glm", []) ∷ (codes "kimi", []) ∷ [];
}

abbrev late : Text → ConditionDialog
late value = record { field = some 4; op = some 5; value = value; provider = [] }

abbrev after_eight : Condition
after_eight = record { field = time_of_day; op = gt; value = codes "08:30"; provider = none }

added-entry : add_entry entry_dialog ≡ exits (codes "kimi/hf.co/m")
unfolding add_entry trim
added-entry = refl

added-condition : add_condition numbers (late (codes "08:30")) ≡ exits after_eight
unfolding add_condition trim invalid finish split_once parse_below
added-condition = refl

refused-condition : add_condition numbers (late (codes "24:00")) ≡ stays not_hhmm
unfolding add_condition trim invalid finish split_once parse_below
refused-condition = refl

abbrev actions : List Action
actions = add entry_dialog ∷ add_cond (late (codes "08:30")) ∷ type_id (codes " r2 ") ∷ []

abbrev made : Rule
made = record {
  id = codes "r2";
  role = codes "planner";
  conditions = after_eight ∷ [];
  fallback_chain = codes "kimi/hf.co/m" ∷ [];
  min_quota_pct = none;
  priority = 2 ^ 31;
  project_scope = none;
}

abbrev edited : RuleEditorDialog
edited = acts numbers actions (open_editor (some []) none)

made-edited : build_rule edited ≡ good made
unfolding build_rule acts open_editor
made-edited = refl

accepted_rule_example :
    (is_malformed (try_rule numbers made ctx) ≡ false) × (is_empty made.fallback_chain ≡ false)
accepted_rule_example =
    accepted_rule numbers (λ t h. h) (some []) none actions made ctx tt made-edited

abbrev two_entries : RuleEditorDialog
two_entries = record (open_editor none (some rule)) { chain_at = some 1 }

moved-up : (chain_move up two_entries).chain ≡ codes "glm/5" ∷ codes "kimi/k2" ∷ []
unfolding chain_move open_editor
moved-up = refl

abbrev file : RulesFile
file = record { write_ok = λ rules. true; torn = λ rules. none }

on_save_lem_example : Ending file edited made (rule ∷ []) (on_save file edited (some (rule ∷ [])))
on_save_lem_example = on_save_lem file edited made (rule ∷ []) (refl, tt) made-edited

saved : (on_save file edited (some (rule ∷ []))).1 ≡ some (rule ∷ made ∷ [])
unfolding on_save acts open_editor
saved = refl
