-- ===== src/Core/Rules/Chain/Readable.antt =====
-- Rules of rules.rs whose values can be read: no condition and no chain entry of them is an error of
-- its form.
use role_n.Prelude.{
  ◌≡◌, refl, Bool, true, false, Option, none, some, List, [], ◌∷◌, ◌++◌, nat_eq, list_eq, arith,
  All,
}
use role_n.Core.Types.{Text}
use role_n.Core.Text.{split_once}
use role_n.Core.Rules.{
  ConditionField, quota_remaining_pct, cost_so_far, task_type, project, time_of_day,
  provider_health, Condition, Rule, Outside, EvalContext, Reason, invalid_value,
  invalid_chain_entry, Outcome, ok, err, parse_parts, parse_hhmm, against, eval_field,
  eval_condition, check_all,
}
use role_n.Core.Rules.Chain.{
  Entry, malformed, skip, use_model, try_provider, try_parts, try_entry, walk_entries, walk_chain,
  after_conditions, try_rule,
}

abbrev pub is_some {ℓ} : {A : Type ℓ} → Option A → Bool
is_some none = false
is_some (some _) = true

-- An entry of a chain with a slash.
abbrev pub HasSlash : Text → Type 0
HasSlash entry = is_some (split_once b'/' entry) ≡ true

-- The outcome of an error of form.
abbrev pub is_malformed : {A : Type 0} → Outcome A → Bool
is_malformed (ok _) = false
is_malformed (err (invalid_value _)) = true
is_malformed (err (invalid_chain_entry _)) = true
is_malformed (err _) = false

module _ {F : Type 0} (out : Outside F) where
  -- The value of a condition on a field can be parsed.
  abbrev pub readable : ConditionField → Text → Bool
  readable quota_remaining_pct value = is_some (out.parse value)
  readable cost_so_far value = is_some (out.parse value)
  readable time_of_day value = is_some (parse_parts out (split_once b':' value))
  readable _ value = true

  abbrev pub Readable : Condition → Type 0
  Readable c = readable c.field c.value ≡ true

  eval_field-Readable :
      (f : ConditionField) (c : Condition) (ctx : EvalContext F)
      → readable f c.value ≡ true
      → is_malformed (eval_field out f c ctx) ≡ false
  unfolding eval_field against parse_hhmm
  eval_field-Readable quota_remaining_pct c ctx h = ground (arith, h)
  eval_field-Readable cost_so_far c ctx h = ground (arith, h)
  eval_field-Readable task_type c ctx h = ground arith
  eval_field-Readable project c ctx h = ground arith
  eval_field-Readable time_of_day c ctx h = ground (arith, h)
  eval_field-Readable provider_health c ctx h = ground arith

  check_all-Readable :
      (cs : List Condition) (ctx : EvalContext F)
      → All Readable cs
      → is_malformed (check_all out cs ctx) ≡ false
  unfolding check_all eval_condition
  check_all-Readable [] ctx a = refl
  check_all-Readable (c ∷ cs) ctx (h, a) =
      ground (arith, eval_field-Readable c.field c ctx h, check_all-Readable cs ctx a)

module _ {F : Type 0} (rule : Rule) (ctx : EvalContext F) where
  abbrev is_formed : Entry → Bool
  is_formed malformed = false
  is_formed _ = true

  try_entry-HasSlash : (entry : Text) → HasSlash entry → is_formed (try_entry rule ctx entry) ≡ true
  unfolding try_entry try_parts try_provider
  try_entry-HasSlash entry h = ground (arith, h)

  walk_entries-HasSlash :
      (entries : List Text) (skipped : List (Text × Reason))
      → All HasSlash entries
      → is_malformed (walk_entries rule ctx entries skipped) ≡ false
  unfolding walk_entries
  walk_entries-HasSlash [] skipped a = refl
  walk_entries-HasSlash (entry ∷ entries) skipped (h, a) =
      elim (try_entry rule ctx entry)
          as (λ t.
            is_formed t ≡ true
            → is_malformed (elim t [
              | malformed ↦ err (invalid_chain_entry entry)
              | skip reason ↦ walk_entries rule ctx entries (skipped ++ (entry, reason) ∷ [])
              | use_model pid model ↦
                  ok
                    (record { rule_id = rule.id; provider = pid; model = model; skipped = skipped })
            ])
              ≡ false) [
                | malformed ↦ λ f. ground (arith, f)
                | skip reason ↦
                    λ _. walk_entries-HasSlash entries (skipped ++ (entry, reason) ∷ []) a
                | use_model pid model ↦ λ _. refl
              ]
        (try_entry-HasSlash entry h)

-- A rule with readable conditions and a chain of entries with a slash is tried without an error of form.
pub try_rule-Readable :
    {F : Type 0} (out : Outside F) (rule : Rule) (ctx : EvalContext F)
    → All (Readable out) rule.conditions
    → All HasSlash rule.fallback_chain
    → is_malformed (try_rule out rule ctx) ≡ false
unfolding try_rule after_conditions walk_chain
try_rule-Readable out rule ctx cs entries = ground (
  arith,
  check_all-Readable out rule.conditions ctx cs,
  walk_entries-HasSlash rule ctx rule.fallback_chain [] entries,
)
