-- ===== src/Tui/RuleEditor/Form.antt =====
-- `build_rule` of rule_editor.rs: the checks of the form, and what it makes of a rule that was opened.
use role_n.Prelude.{
  ℕ, suc, subst, ◌^◌, ◌<◌, ◌≤◌, ◌≡◌, refl, true, false, ◌||◌, Option, none, some, List, [], ◌∷◌,
  ◌++◌, if◌then◌else◌, ltb, ◌==◌, ==_iff, ==_refl, nat_eq, list_eq, contains, get_elem?, any, arith,
  Bool-cases, Option-cases, inl, inr,
}
use role_n.Core.Types.{Text}
use role_n.Core.Text.{is_whitespace, is_empty, trim}
use role_n.Core.Text.Numbers.{
  parse_below, parse_i32, parse_below-show, parse_i32-show_i32, trim-show, trim-show_i32,
  is_empty-show, is_empty-show_i32,
}
use role_n.Core.Rules.{Rule}
use role_n.Tui.RuleEditor.{
  Status, id_required, id_whitespace, pick_a_role, bad_priority, bad_min_quota, empty_chain,
  RuleEditorDialog, built_in_roles, position, push_roles, loaded_rules, open_editor,
}

pub data Checked (A : Type 0) : Type 0 where
  bad : Status → Checked A
  good : A → Checked A

-- The operator `?`.
abbrev pub and_then : {A B : Type 0} → Checked A → (A → Checked B) → Checked B
and_then (bad status) k = bad status
and_then (good a) k = k a

module _ (e : RuleEditorDialog) where
  unfoldable pub build_id : Option Rule → Checked Text
  unfolding trim is_whitespace
  build_id (some r) = good r.id
  build_id none =
      let id = trim e.id in
      if is_empty id
      then bad id_required
      else (if any is_whitespace id then bad id_whitespace else good id)

  -- `selected_item`, unless its value is empty.
  build_role : Checked Text
  build_role = elim e.role [
    | none ↦ bad pick_a_role
    | some i ↦ elim (get_elem? e.roles i) [
      | none ↦ bad pick_a_role
      | some role ↦ if is_empty role then bad pick_a_role else good role
    ]
  ]

  build_priority : Checked ℕ
  unfolding trim parse_i32
  build_priority =
      let text = trim e.priority in
      if is_empty text
      then good (2 ^ 31)
      else elim (parse_i32 text) [ none ↦ bad bad_priority | some p ↦ good p ]

  build_min_quota : Checked (Option ℕ)
  unfolding trim parse_below
  build_min_quota =
      let text = trim e.min_quota in
      if is_empty text then good none else elim (parse_below (2 ^ 8) text) [
        | none ↦ bad bad_min_quota
        | some v ↦ if ltb 100 v then bad bad_min_quota else good (some v)
      ]

  build_scope : Option Text
  unfolding trim
  build_scope = let text = trim e.scope in if is_empty text then none else some text

  unfoldable pub build_rule : Checked Rule
  unfolding build_id build_role build_priority build_min_quota build_scope
  build_rule = and_then (build_id e.editing) λ id. and_then build_role λ role.
      and_then build_priority λ priority. and_then build_min_quota λ min_quota_pct.
        if is_empty e.chain
        then bad empty_chain
        else good (record {
          id = id;
          role = role;
          conditions = e.conditions;
          fallback_chain = e.chain;
          min_quota_pct = min_quota_pct;
          priority = priority;
          project_scope = build_scope;
        })

get_elem?-position :
    (role : Text) (roles : List Text)
    → contains roles role ≡ true
    → (i : ℕ) × (position role roles ≡ some i) × (get_elem? roles i ≡ some role)
unfolding position
get_elem?-position role [] h = ground (arith, h)
get_elem?-position role (r ∷ roles) h = elim (Bool-cases (r == role)) [
  | inl e ↦ (0, rw e refl, rw ((==_iff r role).0 e) refl)
  | inr e ↦
      let (i, p, g) = get_elem?-position role roles (ground (arith, h, e)) in
      (suc i, rw (e, p) refl, g)
]

contains-append :
    (roles : List Text) (a b : Text) → contains (roles ++ a ∷ []) b ≡ (contains roles b || (a == b))
contains-append [] a b = ground arith
contains-append (r ∷ roles) a b = ground (arith, contains-append roles a b)

-- Every role of a rule is among the choices, and no choice is lost.
contains-push_roles :
    (rules : List Rule) (roles : List Text) (role : Text)
    → contains roles role ≡ true
    → contains (push_roles rules roles) role ≡ true
contains-push_roles [] roles role h = h
contains-push_roles (r ∷ rules) roles role h = elim (Bool-cases (contains roles r.role)) [
  | inl e ↦ rw e (contains-push_roles rules roles role h)
  | inr e ↦ rw e (
      contains-push_roles rules (roles ++ r.role ∷ []) role
        (rw (contains-append roles r.role role) (rw h refl)))
]

edited-push_roles :
    (rules : List Rule) (r : Rule) (roles : List Text)
    → contains (push_roles (rules ++ r ∷ []) roles) r.role ≡ true
edited-push_roles [] r roles = elim (Bool-cases (contains roles r.role)) [
  | inl e ↦ rw e e
  | inr e ↦ rw e (rw (contains-append roles r.role r.role) (ground (arith, ==_refl r.role)))
]
edited-push_roles (s ∷ rules) r roles =
    edited-push_roles rules r (if contains roles s.role then roles else roles ++ s.role ∷ [])

-- What a text that the form trims has to be for the form to leave it as it is.
abbrev pub Trimmed : Option Text → Type 0
Trimmed none = Unit
Trimmed (some t) = (trim t ≡ t) × (is_empty t ≡ false)

abbrev pub Percent : Option ℕ → Type 0
Percent none = Unit
Percent (some q) = q ≤ 100

build_role-selected :
    (e : RuleEditorDialog) (i : ℕ) (role : Text)
    → e.role ≡ some i
    → get_elem? e.roles i ≡ some role
    → is_empty role ≡ false
    → build_role e ≡ good role
unfolding build_role
build_role-selected e i role p g h = ground (arith, p, g, h)

module _ (disk : Option (List Rule)) (r : Rule) where
  abbrev opened : RuleEditorDialog
  opened = open_editor disk (some r)

  opened-role : is_empty r.role ≡ false → build_role opened ≡ good r.role
  unfolding open_editor
  opened-role h =
      let roles = push_roles (loaded_rules disk ++ r ∷ []) built_in_roles in
      let (i, p, g) =
        get_elem?-position r.role roles (edited-push_roles (loaded_rules disk) r built_in_roles) in
      build_role-selected opened i r.role (rw p refl) g h

  opened-priority : r.priority < 2 ^ 32 → build_priority opened ≡ good r.priority
  unfolding build_priority open_editor
  opened-priority h =
      rw (trim-show_i32 r.priority, is_empty-show_i32 r.priority, parse_i32-show_i32 r.priority h)
        refl

  opened-min_quota : Percent r.min_quota_pct → build_min_quota opened ≡ good r.min_quota_pct
  unfolding build_min_quota open_editor
  opened-min_quota h = elim (Option-cases r.min_quota_pct) [
    | inl e ↦ rw e refl
    | inr (q, e) ↦
        let le : q ≤ 100 = subst Percent e h in
        rw (e, trim-show q, is_empty-show q, parse_below-show (2 ^ 8) q (omega arith))
          (ground (arith, le))
  ]

  opened-scope : Trimmed r.project_scope → build_scope opened ≡ r.project_scope
  unfolding build_scope open_editor
  opened-scope h = elim (Option-cases r.project_scope) [
    | inl e ↦ rw e refl
    | inr (t, e) ↦ let (trimmed, full) = subst Trimmed e h in rw (e, trimmed, full) refl
  ]

  -- A rule that is opened and saved without a change is the rule that was opened, whatever the other
  -- rules are: its role is found among the choices, its numbers are printed and parsed. It is supposed
  -- that it has a role, a chain and a quota of at most 100 percent, and that its scope has no space
  -- around it.
  pub build_rule-open_editor :
      r.priority < 2 ^ 32
      → Percent r.min_quota_pct
      → Trimmed r.project_scope
      → is_empty r.role ≡ false
      → is_empty r.fallback_chain ≡ false
      → build_rule (open_editor disk (some r)) ≡ good r
  unfolding build_rule build_id open_editor
  build_rule-open_editor p q t role chain =
      rw (opened-role role, opened-priority p, opened-min_quota q, opened-scope t, chain) refl

and_then-good :
    {A B : Type 0} (c : Checked A) (k : A → Checked B) (b : B)
    → and_then c k ≡ good b
    → (a : A) × (c ≡ good a) × (k a ≡ good b)
and_then-good (bad status) k b h = ground (arith, h)
and_then-good (good a) k b h = (a, refl, h)

-- What a rule that the form accepts has of the editor.
pub build_rule-good :
    (e : RuleEditorDialog) (rule : Rule)
    → build_rule e ≡ good rule
    → (build_id e e.editing ≡ good rule.id)
      × (rule.conditions ≡ e.conditions)
      × (rule.fallback_chain ≡ e.chain)
      × (is_empty e.chain ≡ false)
unfolding build_rule
build_rule-good e rule h =
    let (id, e1, h1) = and_then-good (build_id e e.editing) _ rule h in
    let (role, _, h2) = and_then-good (build_role e) _ rule h1 in
    let (p, _, h3) = and_then-good (build_priority e) _ rule h2 in
    let (q, _, h4) = and_then-good (build_min_quota e) _ rule h3 in ground (arith, h4, e1)
