-- ===== src/Tui/RuleEditor/Edit.antt =====
-- The buttons of rule_editor.rs that change the chain and the conditions, and `on_save`.
use role_n.Prelude.{
  ℕ, zero, suc, ◌+◌, Bool, true, Option, none, some, List, [], ◌∷◌, ◌++◌, if◌then◌else◌, ltb, ◌==◌,
  nat_eq, list_eq, length, any,
}
use role_n.Core.Types.{Text}
use role_n.Core.Rules.{Rule, Condition, Outside}
use role_n.Tui.RuleEditor.{
  Status, select_entry, select_condition, load_failed, save_failed, id_exists, Closing, exits,
  ChainEntryDialog, add_entry, ConditionDialog, add_condition, RuleEditorDialog, refreshed,
}
use role_n.Tui.RuleEditor.Form.{Checked, bad, good, build_rule}

abbrev pub set_status : Status → RuleEditorDialog → RuleEditorDialog
set_status status e = record e { status = some status }

-- `(i < len).then_some(i)`: a list box without a selection says `usize::MAX`.
abbrev pub index_below : ℕ → Option ℕ → Option ℕ
index_below n none = none
index_below n (some i) = if ltb i n then some i else none

abbrev pub chain_index : RuleEditorDialog → Option ℕ
chain_index e = index_below (length e.chain) e.chain_at

abbrev pub cond_index : RuleEditorDialog → Option ℕ
cond_index e = index_below (length e.conditions) e.cond_at

-- The list box of the chain is filled again.
abbrev pub with_chain : List Text → Option ℕ → RuleEditorDialog → RuleEditorDialog
with_chain chain select e = record e { chain = chain; chain_at = refreshed (length chain) select }

abbrev pub with_conditions : List Condition → Option ℕ → RuleEditorDialog → RuleEditorDialog
with_conditions cs select e = record e { conditions = cs; cond_at = refreshed (length cs) select }

-- `swap(i, i + 1)`
unfoldable pub swap_next {ℓ} : {A : Type ℓ} → ℕ → List A → List A
swap_next n [] = []
swap_next zero (x ∷ []) = x ∷ []
swap_next zero (x ∷ y ∷ xs) = y ∷ x ∷ xs
swap_next (suc n) (x ∷ xs) = x ∷ swap_next n xs

-- `remove(i)`
unfoldable pub remove_at {ℓ} : {A : Type ℓ} → ℕ → List A → List A
remove_at n [] = []
remove_at zero (x ∷ xs) = xs
remove_at (suc n) (x ∷ xs) = x ∷ remove_at n xs

pub data Direction : Type 0 where
  up down : Direction

unfoldable pub move_from : Direction → Option ℕ → RuleEditorDialog → RuleEditorDialog
unfolding swap_next
move_from way none e = set_status select_entry e
move_from up (some zero) e = e
move_from up (some (suc j)) e = with_chain (swap_next j e.chain) (some j) e
move_from down (some i) e =
    if ltb (i + 1) (length e.chain) then with_chain (swap_next i e.chain) (some (i + 1)) e else e

unfoldable pub chain_move : Direction → RuleEditorDialog → RuleEditorDialog
unfolding move_from
chain_move way e = move_from way (chain_index e) e

-- The response of the modal dialog, if it closed with one.
unfoldable pub chain_add : Closing Text → RuleEditorDialog → RuleEditorDialog
chain_add (exits entry) e = with_chain (e.chain ++ entry ∷ []) (some (length e.chain)) e
chain_add _ e = e

unfoldable pub del_entry : Option ℕ → RuleEditorDialog → RuleEditorDialog
unfolding remove_at
del_entry none e = set_status select_entry e
del_entry (some i) e = with_chain (remove_at i e.chain) (some i) e

unfoldable pub chain_del : RuleEditorDialog → RuleEditorDialog
unfolding del_entry
chain_del e = del_entry (chain_index e) e

unfoldable pub cond_add : Closing Condition → RuleEditorDialog → RuleEditorDialog
cond_add (exits c) e = with_conditions (e.conditions ++ c ∷ []) (some (length e.conditions)) e
cond_add _ e = e

unfoldable pub del_condition : Option ℕ → RuleEditorDialog → RuleEditorDialog
unfolding remove_at
del_condition none e = set_status select_condition e
del_condition (some i) e = with_conditions (remove_at i e.conditions) (some i) e

unfoldable pub cond_del : RuleEditorDialog → RuleEditorDialog
unfolding del_condition
cond_del e = del_condition (cond_index e) e

-- The rules file: its rules, or `none` if it cannot be loaded; and the write of it.
pub record RulesFile : Type 0 where
  pub write_ok : List Rule → Bool
  -- what a failed write leaves
  pub torn : List Rule → Option (List Rule)

-- `iter_mut().find(…)`: the first rule with the id is replaced; if there is none, the rule is added.
unfoldable pub replace_rule : Text → Rule → List Rule → List Rule
replace_rule id rule [] = rule ∷ []
replace_rule id rule (r ∷ rules) =
    let rest = replace_rule id rule rules in if r.id == id then rule ∷ rules else r ∷ rest

abbrev pub has_rule : Text → List Rule → Bool
has_rule id rules = any (λ (r : Rule). r.id == id) rules

-- The rules to write, or the status.
unfoldable pub changed_rules : Option Rule → Rule → List Rule → Checked (List Rule)
unfolding replace_rule
changed_rules (some orig) rule rules = good (replace_rule orig.id rule rules)
changed_rules none rule rules =
    if has_rule rule.id rules then bad (id_exists rule.id) else good (rules ++ rule ∷ [])

module _ (file : RulesFile) where
  unfoldable pub save :
      Checked (List Rule)
      → RuleEditorDialog
      → Option (List Rule)
      → RuleEditorDialog × Option (List Rule)
  save (bad status) e disk = (set_status status e, disk)
  save (good rules) e disk =
      if file.write_ok rules
      then (record e { closed = true }, some rules)
      else (set_status save_failed e, file.torn rules)

  unfoldable pub store :
      Checked Rule → RuleEditorDialog → Option (List Rule) → RuleEditorDialog × Option (List Rule)
  unfolding changed_rules save
  store (bad status) e disk = (set_status status e, disk)
  store (good rule) e none = (set_status load_failed e, none)
  store (good rule) e (some rules) = save (changed_rules e.editing rule rules) e (some rules)

  unfoldable pub on_save :
      RuleEditorDialog → Option (List Rule) → RuleEditorDialog × Option (List Rule)
  unfolding build_rule store
  on_save e disk = store (build_rule e) e disk

-- What the user does: selections and texts are free, the buttons are the functions above.
pub data Action : Type 0 where
  select_chain select_cond choose_role : ℕ → Action
  type_id type_priority type_min_quota type_scope : Text → Action
  move : Direction → Action
  add : ChainEntryDialog → Action
  add_cond : ConditionDialog → Action
  delete delete_cond : Action

module _ {F : Type 0} (out : Outside F) where
  unfoldable pub act : Action → RuleEditorDialog → RuleEditorDialog
  unfolding chain_move chain_add chain_del cond_add cond_del add_entry add_condition
  act (select_chain i) e = record e { chain_at = some i }
  act (select_cond i) e = record e { cond_at = some i }
  act (choose_role i) e = record e { role = some i }
  act (type_id t) e = record e { id = t }
  act (type_priority t) e = record e { priority = t }
  act (type_min_quota t) e = record e { min_quota = t }
  act (type_scope t) e = record e { scope = t }
  act (move way) e = chain_move way e
  act (add dialog) e = chain_add (add_entry dialog) e
  act (add_cond dialog) e = cond_add (add_condition out dialog) e
  act delete e = chain_del e
  act delete_cond e = cond_del e

  unfoldable pub acts : List Action → RuleEditorDialog → RuleEditorDialog
  unfolding act
  acts [] e = e
  acts (a ∷ actions) e = acts actions (act a e)
