-- ===== src/Tui/RuleEditor/Saved.antt =====
-- What `on_save` of rule_editor.rs does to the rules on disk.
use role_n.Prelude.{
  ◌⊎◌, ◌≡◌, refl, ap, true, false, ◌||◌, Option, none, some, List, [], ◌∷◌, ◌++◌, if◌then◌else◌,
  ◌==◌, ==_iff, nat_eq, list_eq, find, arith, Bool-cases, inl, inr, subst, sym,
}
use role_n.Core.Types.{Text}
use role_n.Core.Rules.{Rule}
use role_n.Tui.RuleEditor.{Status, RuleEditorDialog, save_failed, id_exists}
use role_n.Tui.RuleEditor.Form.{Checked, bad, good, build_rule, build_rule-good, build_id}
use role_n.Tui.RuleEditor.Edit.{
  RulesFile, replace_rule, has_rule, changed_rules, save, store, on_save, set_status,
}

-- The rule of an id.
abbrev pub rule_at : Text → List Rule → Option Rule
rule_at id rules = find (λ (r : Rule). r.id == id) rules

-- No two rules have one id.
abbrev pub UniqueIds : List Rule → Type 0
UniqueIds [] = Unit
UniqueIds (r ∷ rules) = (has_rule r.id rules ≡ false) × UniqueIds rules

rule_at-append :
    (rules : List Rule) (new : Rule) (id : Text)
    → has_rule new.id rules ≡ false
    → rule_at id (rules ++ new ∷ []) ≡ (if new.id == id then some new else rule_at id rules)
rule_at-append [] new id h = refl
rule_at-append (r ∷ rules) new id h =
    ground
      (arith, h, ==_iff r.id new.id, ==_iff r.id id, ==_iff new.id id, rule_at-append rules new id)

has_rule-append :
    (rules : List Rule) (new : Rule) (id : Text)
    → has_rule id (rules ++ new ∷ []) ≡ (has_rule id rules || (new.id == id))
has_rule-append [] new id = ground arith
has_rule-append (r ∷ rules) new id = ground (arith, has_rule-append rules new id)

append-UniqueIds :
    (rules : List Rule) (new : Rule)
    → UniqueIds rules
    → has_rule new.id rules ≡ false
    → UniqueIds (rules ++ new ∷ [])
append-UniqueIds [] new u h = (refl, tt)
append-UniqueIds (r ∷ rules) new (f, u) h = ground (
  arith,
  h,
  ==_iff r.id new.id,
  ==_iff new.id r.id,
  has_rule-append rules new r.id,
  append-UniqueIds rules new u,
)

rule_at-replace_rule :
    (rule : Rule) (rules : List Rule) (id : Text)
    → rule_at id (replace_rule rule.id rule rules)
      ≡ (if rule.id == id then some rule else rule_at id rules)
unfolding replace_rule
rule_at-replace_rule rule [] id = refl
rule_at-replace_rule rule (r ∷ rules) id = ground (
  arith,
  ==_iff r.id rule.id,
  ==_iff r.id id,
  ==_iff rule.id id,
  rule_at-replace_rule rule rules id,
)

has_rule-replace_rule :
    (rule : Rule) (rules : List Rule) (id : Text)
    → has_rule id (replace_rule rule.id rule rules) ≡ (has_rule id rules || (rule.id == id))
unfolding replace_rule
has_rule-replace_rule rule [] id = ground arith
has_rule-replace_rule rule (r ∷ rules) id =
    ground (arith, ==_iff r.id rule.id, ==_iff r.id id, has_rule-replace_rule rule rules id)

replace_rule-UniqueIds :
    (rule : Rule) (rules : List Rule)
    → UniqueIds rules
    → UniqueIds (replace_rule rule.id rule rules)
unfolding replace_rule
replace_rule-UniqueIds rule [] u = (refl, tt)
replace_rule-UniqueIds rule (r ∷ rules) (f, u) = ground (
  arith,
  ==_iff r.id rule.id,
  ==_iff rule.id r.id,
  has_rule-replace_rule rule rules r.id,
  replace_rule-UniqueIds rule rules u,
)

-- The rules that are written have the rule under its id, and are otherwise those that were there.
abbrev pub Stored : Rule → List Rule → List Rule → Type 0
Stored rule rules rules' =
    UniqueIds rules'
    × ((id : Text) → rule_at id rules' ≡ (if rule.id == id then some rule else rule_at id rules))

-- The id of a new rule is free.
abbrev pub Free : Option Rule → Rule → List Rule → Type 0
Free (some orig) rule rules = Unit
Free none rule rules = has_rule rule.id rules ≡ false

replaced-Stored :
    (id : Text) (rule : Rule) (rules : List Rule)
    → id ≡ rule.id
    → UniqueIds rules
    → Stored rule rules (replace_rule id rule rules)
replaced-Stored id rule rules same u =
    rw same (replace_rule-UniqueIds rule rules u, rule_at-replace_rule rule rules)

changed_rules-good :
    (editing : Option Rule) (rule : Rule) (rules rules' : List Rule) (e : RuleEditorDialog)
    → UniqueIds rules
    → build_id e editing ≡ good rule.id
    → changed_rules editing rule rules ≡ good rules'
    → Free editing rule rules × Stored rule rules rules'
unfolding changed_rules build_id
changed_rules-good (some orig) rule rules rules' e u same h =
    let changed : replace_rule orig.id rule rules ≡ rules' = cc h in
    (tt, subst (Stored rule rules) changed (replaced-Stored orig.id rule rules (cc same) u))
changed_rules-good none rule rules rules' e u same h = elim (Bool-cases (has_rule rule.id rules)) [
  | inl taken ↦ absurd (ground (arith, h, taken))
  | inr free ↦
      let added : rules ++ rule ∷ [] ≡ rules' = ground (arith, h, free) in
      (
        free,
        subst (Stored rule rules) added
            (append-UniqueIds rules rule u free, λ id. rule_at-append rules rule id free),
      )
]

changed_rules-bad :
    (editing : Option Rule) (rule : Rule) (rules : List Rule) (status : Status)
    → changed_rules editing rule rules ≡ bad status
    → (id_exists rule.id ≡ status) × (has_rule rule.id rules ≡ true)
unfolding changed_rules
changed_rules-bad (some orig) rule rules status h = absurd (ground (arith, h))
changed_rules-bad none rule rules status h = elim (Bool-cases (has_rule rule.id rules)) [
  | inl taken ↦ (ground (arith, h, taken), taken)
  | inr free ↦ absurd (ground (arith, h, free))
]

-- How a save ends: the rules are written and the dialog closes; or it stays open with a reason, and
-- the rules are as they were unless the write itself has failed.
abbrev pub Ending :
    RulesFile → RuleEditorDialog → Rule → List Rule → RuleEditorDialog × Option (List Rule) → Type 0
Ending file e rule rules (e', disk') =
    ((rules' : List Rule) × (disk' ≡ some rules')
      × (e'.closed ≡ true)
      × Free e.editing rule rules
      × Stored rule rules rules')
    ⊎ ((disk' ≡ some rules)
        × (e' ≡ set_status (id_exists rule.id) e)
        × (has_rule rule.id rules ≡ true))
    ⊎ ((rules' : List Rule) × (disk' ≡ file.torn rules')
        × (e' ≡ set_status save_failed e)
        × (file.write_ok rules' ≡ false))

save-Ending :
    (file : RulesFile) (e : RuleEditorDialog) (rule : Rule) (rules : List Rule)
    → (changed : Checked (List Rule)) → UniqueIds rules
    → build_id e e.editing ≡ good rule.id
    → changed_rules e.editing rule rules ≡ changed
    → Ending file e rule rules (save file changed e (some rules))
unfolding save
save-Ending file e rule rules (bad status) u same h =
    let (id, taken) = changed_rules-bad e.editing rule rules status h in
    inr (inl (refl, ap (λ s. set_status s e) (sym id), taken))
save-Ending file e rule rules (good rules') u same h = elim (Bool-cases (file.write_ok rules')) [
  | inl w ↦
      let (free, stored) = changed_rules-good e.editing rule rules rules' e u same h in
      rw w (inl (rules', refl, refl, free, stored))
  | inr w ↦ rw w (inr (inr (rules', refl, refl, w)))
]

-- Saving a form that is accepted: when it closes the dialog, the rules on disk have the rule under its
-- id, every other id has the rule that it had, the ids stay different, and a new rule has overwritten
-- none; otherwise the dialog stays open, because the id of a new rule is taken, and then the disk is
-- as it was, or because the write has failed. It is supposed that the rules on disk have different ids.
pub on_save_lem :
    (file : RulesFile) (e : RuleEditorDialog) (rule : Rule) (rules : List Rule)
    → UniqueIds rules
    → build_rule e ≡ good rule
    → Ending file e rule rules (on_save file e (some rules))
unfolding on_save store
on_save_lem file e rule rules u h =
    subst (λ form. Ending file e rule rules (store file form e (some rules))) (sym h)
      (save-Ending file e rule rules (changed_rules e.editing rule rules) u
        (build_rule-good e rule h).0 refl)
