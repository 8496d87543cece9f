-- ===== src/Tui/RuleEditor/Accepted.antt =====
-- What the rule engine makes of the rules that rule_editor.rs accepts.
use role_n.Prelude.{
  ℕ, zero, suc, ◌+◌, ◌^◌, ◌≡◌, refl, true, false, ◌&&◌, Option, none, some, List, [], ◌∷◌, ◌++◌,
  ltb, length, get_elem?, arith, Bool-cases, Option-cases, inl, inr, All, sym, subst,
}
use role_n.Core.Types.{Text}
use role_n.Core.Text.{split_once, trim, is_empty}
use role_n.Core.Text.Numbers.{parse_below}
use role_n.Core.Rules.{
  ConditionField, quota_remaining_pct, cost_so_far, task_type, project, time_of_day,
  provider_health, CmpOp, Condition, Rule, Outside, EvalContext, parse_parts,
}
use role_n.Core.Rules.Chain.{try_rule}
use role_n.Core.Rules.Chain.Readable.{
  is_some, HasSlash, is_malformed, readable, Readable, try_rule-Readable,
}
use role_n.Tui.RuleEditor.{
  Status, Closing, stays, exits, panics, ChainEntryDialog, ConditionDialog, add_entry, entry_of,
  add_condition, RuleEditorDialog, open_editor, is_hhmm, below, invalid, finish,
}
use role_n.Tui.RuleEditor.Form.{good, build_rule, build_rule-good}
use role_n.Tui.RuleEditor.Edit.{
  Action, select_chain, select_cond, choose_role, type_id, type_priority, type_min_quota,
  type_scope, move, add, add_cond, delete, delete_cond, chain_move, chain_add, chain_del, cond_add,
  cond_del, act, acts, swap_next, remove_at, chain_index, cond_index, Direction, up, down,
  move_from, del_entry, del_condition,
}

module _ {A : Type 0} (P : A → Type 0) where
  append-All : (xs : List A) (x : A) → All P xs → P x → All P (xs ++ x ∷ [])
  append-All [] x a p = (p, tt)
  append-All (y ∷ xs) x (q, a) p = (q, append-All xs x a p)

  swap_next-All : (n : ℕ) (xs : List A) → All P xs → All P (swap_next n xs)
  unfolding swap_next
  swap_next-All n [] a = tt
  swap_next-All zero (x ∷ []) a = a
  swap_next-All zero (x ∷ y ∷ xs) (p, (q, a)) = (q, (p, a))
  swap_next-All (suc n) (x ∷ xs) (p, a) = (p, swap_next-All n xs a)

  remove_at-All : (n : ℕ) (xs : List A) → All P xs → All P (remove_at n xs)
  unfolding remove_at
  remove_at-All n [] a = tt
  remove_at-All zero (x ∷ xs) (p, a) = a
  remove_at-All (suc n) (x ∷ xs) (p, a) = (p, remove_at-All n xs a)

split_once-append : (c : ℕ) (xs ys : Text) → is_some (split_once c (xs ++ c ∷ ys)) ≡ true
unfolding split_once
split_once-append c [] ys = ground arith
split_once-append c (x ∷ xs) ys = ground (arith, split_once-append c xs ys)

-- The entries that the dialog closes with.
abbrev Closes : {A : Type 0} → (A → Type 0) → Closing A → Type 0
Closes P (stays status) = Unit
Closes P (exits a) = P a
Closes P panics = Unit

entry_of-HasSlash :
    (found : Option (Text × List Text)) (model : Text) → Closes HasSlash (entry_of found model)
entry_of-HasSlash none model = tt
entry_of-HasSlash (some (id, models)) model = split_once-append b'/' id model

add_entry-HasSlash : (d : ChainEntryDialog) → Closes HasSlash (add_entry d)
unfolding add_entry
add_entry-HasSlash d = elim (Option-cases d.provider) [
  | inl e ↦ rw e tt
  | inr (i, e) ↦ elim (Bool-cases (is_empty (trim d.model))) [
    | inl f ↦ rw (e, f) tt
    | inr f ↦ rw (e, f) (entry_of-HasSlash (get_elem? d.providers i) (trim d.model))
  ]
]

-- What `f64` reads: every text that is read as a `u32`.
abbrev pub ReadsNumbers : {F : Type 0} → Outside F → Type 0
ReadsNumbers out =
    (text : Text) → is_some (parse_below (2 ^ 32) text) ≡ true → is_some (out.parse text) ≡ true

-- A rule that is opened for editing, if there is one, has a chain and conditions that can be read.
abbrev pub EditedReadable : {F : Type 0} → Outside F → Option Rule → Type 0
EditedReadable out none = Unit
EditedReadable out (some r) = All HasSlash r.fallback_chain × All (Readable out) r.conditions

module _ {F : Type 0} (out : Outside F) (reads : ReadsNumbers out) where
  parsed-below : (limit : ℕ) (t : Text) → below limit t ≡ true → is_some (out.parse t) ≡ true
  parsed-below limit t h = reads t (ground (arith, h))

  readable-parts :
      (parts : Option (Text × Text))
      → (elim parts [ none ↦ false | some (h, m) ↦ below 24 h && below 60 m ]) ≡ true
      → is_some (parse_parts out parts) ≡ true
  readable-parts none h = ground (arith, h)
  readable-parts (some (t, m)) h = ground (arith, h, parsed-below 24 t, parsed-below 60 m)

  invalid-readable :
      (f : ConditionField) (value : Text) → invalid out f value ≡ none → readable out f value ≡ true
  unfolding invalid
  invalid-readable quota_remaining_pct value h = ground (arith, h)
  invalid-readable cost_so_far value h = ground (arith, h)
  invalid-readable time_of_day value h = elim (Bool-cases (is_hhmm value)) [
    | inl e ↦ readable-parts (split_once b':' value) e
    | inr e ↦ ground (arith, h, e)
  ]
  invalid-readable task_type value h = refl
  invalid-readable project value h = refl
  invalid-readable provider_health value h = refl

  finish-Readable :
      (f : ConditionField) (o : CmpOp) (value provider : Text) (verdict : Option Status)
      → invalid out f value ≡ verdict
      → Closes (Readable out) (finish out f o value provider verdict)
  unfolding finish
  finish-Readable f o value provider (some status) h = tt
  finish-Readable f o value provider none h = invalid-readable f value h

  add_condition-Readable : (d : ConditionDialog) → Closes (Readable out) (add_condition out d)
  unfolding add_condition
  add_condition-Readable d = elim (Bool-cases (is_empty (trim d.value))) [
    | inl e ↦ rw e tt
    | inr e ↦ rw e (finish-Readable _ _ (trim d.value) d.provider _ refl)
  ]

  -- The chain and the conditions of the editor can be read by the engine.
  abbrev Sound : RuleEditorDialog → Type 0
  Sound e = All HasSlash e.chain × All (Readable out) e.conditions

  move_from-Sound :
      (way : Direction) (i : Option ℕ) (e : RuleEditorDialog) → Sound e → Sound (move_from way i e)
  unfolding move_from
  move_from-Sound up none e s = s
  move_from-Sound up (some zero) e s = s
  move_from-Sound up (some (suc j)) e (a, b) = (swap_next-All HasSlash j e.chain a, b)
  move_from-Sound down none e s = s
  move_from-Sound down (some i) e (a, b) = elim (Bool-cases (ltb (i + 1) (length e.chain))) [
    | inl l ↦ rw l (swap_next-All HasSlash i e.chain a, b)
    | inr l ↦ rw l (a, b)
  ]

  chain_add-Sound :
      (c : Closing Text) (e : RuleEditorDialog)
      → Closes HasSlash c
      → Sound e
      → Sound (chain_add c e)
  unfolding chain_add
  chain_add-Sound (stays status) e c s = s
  chain_add-Sound (exits entry) e c (a, b) = (append-All HasSlash e.chain entry a c, b)
  chain_add-Sound panics e c s = s

  cond_add-Sound :
      (c : Closing Condition) (e : RuleEditorDialog)
      → Closes (Readable out) c
      → Sound e
      → Sound (cond_add c e)
  unfolding cond_add
  cond_add-Sound (stays status) e c s = s
  cond_add-Sound (exits c) e p (a, b) = (a, append-All (Readable out) e.conditions c b p)
  cond_add-Sound panics e c s = s

  del_entry-Sound : (i : Option ℕ) (e : RuleEditorDialog) → Sound e → Sound (del_entry i e)
  unfolding del_entry
  del_entry-Sound none e s = s
  del_entry-Sound (some i) e (a, b) = (remove_at-All HasSlash i e.chain a, b)

  del_condition-Sound : (i : Option ℕ) (e : RuleEditorDialog) → Sound e → Sound (del_condition i e)
  unfolding del_condition
  del_condition-Sound none e s = s
  del_condition-Sound (some i) e (a, b) = (a, remove_at-All (Readable out) i e.conditions b)

  act-Sound : (action : Action) (e : RuleEditorDialog) → Sound e → Sound (act out action e)
  unfolding act chain_move chain_del cond_del
  act-Sound (select_chain i) e s = s
  act-Sound (select_cond i) e s = s
  act-Sound (choose_role i) e s = s
  act-Sound (type_id t) e s = s
  act-Sound (type_priority t) e s = s
  act-Sound (type_min_quota t) e s = s
  act-Sound (type_scope t) e s = s
  act-Sound (move way) e s = move_from-Sound way (chain_index e) e s
  act-Sound (add d) e s = chain_add-Sound (add_entry d) e (add_entry-HasSlash d) s
  act-Sound (add_cond d) e s = cond_add-Sound (add_condition out d) e (add_condition-Readable d) s
  act-Sound delete e s = del_entry-Sound (chain_index e) e s
  act-Sound delete_cond e s = del_condition-Sound (cond_index e) e s

  acts-Sound : (actions : List Action) (e : RuleEditorDialog) → Sound e → Sound (acts out actions e)
  unfolding acts
  acts-Sound [] e s = s
  acts-Sound (a ∷ actions) e s = acts-Sound actions (act out a e) (act-Sound a e s)

  open_editor-Sound :
      (disk : Option (List Rule)) (editing : Option Rule)
      → EditedReadable out editing
      → Sound (open_editor disk editing)
  unfolding open_editor
  open_editor-Sound disk none s = (tt, tt)
  open_editor-Sound disk (some r) s = s

  -- Whatever the user does in the editor, a rule that its form accepts has an entry to try, and in no
  -- state of the providers is it skipped for a condition whose value cannot be read or for a chain entry
  -- of the wrong form; if it was opened for editing, the rule that was opened has to be of that kind. It
  -- is supposed that what is read as a u32 is read as an f64 too.
  pub accepted_rule :
      (disk : Option (List Rule)) (editing : Option Rule) (actions : List Action) (rule : Rule)
      → (ctx : EvalContext F) → EditedReadable out editing
      → build_rule (acts out actions (open_editor disk editing)) ≡ good rule
      → (is_malformed (try_rule out rule ctx) ≡ false) × (is_empty rule.fallback_chain ≡ false)
  accepted_rule disk editing actions rule ctx r h =
      let e = acts out actions (open_editor disk editing) in
      let (a, b) =
        acts-Sound actions (open_editor disk editing) (open_editor-Sound disk editing r) in
      let (_, cs, chain, full) = build_rule-good e rule h in
      (
        try_rule-Readable out rule ctx (subst (All (Readable out)) (sym cs) b)
            (subst (All HasSlash) (sym chain) a),
        rw chain full,
      )
