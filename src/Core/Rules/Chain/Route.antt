-- ===== src/Core/Rules/Chain/Route.antt =====
-- What a decision of `decide` in rules.rs means.
use role_n.Prelude.{
  true, false, ◌≡◌, ◌≢◌, refl, some, List, [], ◌∷◌, ◌++◌, nat_eq, list_eq, option_eq, contains,
  arith, All, Bool-cases, inl, inr,
}
use role_n.Prelude.Dict.{lookup}
use role_n.Core.Types.{Text}
use role_n.Core.Rules.{
  Rule, for_role, Outside, ProviderState, EvalContext, Reason, Decision, Note, Outcome, ok, err,
  check_all,
}
use role_n.Core.Rules.Chain.{
  skip, use_model, too_little, in_catalog, in_scope, try_entry, routed, paused, no_rule, no_route,
  try_rule, try_rules, decide_among, decide,
}

-- A provider that a rule may use for a model.
pub record Usable {F : Type 0} (rule : Rule) (ctx : EvalContext F) (pid model : Text) : Type 0 where
  pub state : ProviderState F
  pub registered : lookup pid ctx.providers ≡ some state
  pub healthy : state.healthy ≡ true
  pub quota : too_little rule.min_quota_pct state.quota_remaining_pct ≡ false
  pub catalog : in_catalog state.models model ≡ true

module _ {F : Type 0} (rule : Rule) (ctx : EvalContext F) where
  pub Skipped : Text → Type 0
  Skipped entry = (reason : Reason) × (try_entry rule ctx entry ≡ skip reason)

  -- The entry of a decision, after entries that were skipped.
  abbrev pub Chosen : List Text → Decision → Type 0
  Chosen entries d =
      (before : List Text) × (entry : Text) × (after : List Text) × (entries
        ≡ before ++ entry ∷ after)
      × All Skipped before
      × (try_entry rule ctx entry ≡ use_model d.provider d.model)

module _ {F : Type 0} (out : Outside F) (ctx : EvalContext F) where
  -- The rule was tried and did not route.
  pub Refused : Rule → Type 0
  Refused rule = (note : Note) × (try_rule out rule ctx ≡ err note)

  -- The rule that routed, and what it found.
  pub record RoutedBy (d : Decision) (rule : Rule) : Type 0 where
    pub scope : in_scope rule.project_scope ctx.project ≡ true
    pub conditions : check_all out rule.conditions ctx ≡ ok tt
    pub chosen : Chosen rule ctx rule.fallback_chain d
    pub usable : Usable rule ctx d.provider d.model
    pub named : d.rule_id ≡ rule.id

  abbrev pub Earliest : List Rule → Decision → Type 0
  Earliest rules d =
      (before : List Rule) × (rule : Rule) × (after : List Rule) × (rules ≡ before ++ rule ∷ after)
      × All Refused before
      × RoutedBy d rule

  try_rules-Refused :
      (rules : List Rule) (notes end : List (Text × Note))
      → try_rules out rules ctx notes ≡ no_route end
      → All Refused rules
  unfolding try_rules Refused
  try_rules-Refused [] notes end e = tt
  try_rules-Refused (rule ∷ rules) notes end e =
      by_rule (λ n q. try_rules-Refused rules n end q) (try_rule out rule ctx) refl
    where
      by_rule :
          ((n : List (Text × Note)) → try_rules out rules ctx n ≡ no_route end → All Refused rules)
          → (o : Outcome Decision) → try_rule out rule ctx ≡ o
          → All Refused (rule ∷ rules)
      by_rule rec (err note) q =
          ((note, q), rec (notes ++ (rule.id, note) ∷ []) (ground (arith, e, q)))
      by_rule rec (ok d') q = absurd (ground (arith, e, q))

  try_rules-tries :
      (rules : List Rule) (notes : List (Text × Note))
      → (try_rules out rules ctx notes ≢ paused) × (try_rules out rules ctx notes ≢ no_rule)
  unfolding try_rules
  try_rules-tries [] notes = (cc, cc)
  try_rules-tries (rule ∷ rules) notes =
      by_rule (λ n. try_rules-tries rules n) (try_rule out rule ctx)
    where
      by_rule :
          ((n : List (Text × Note))
            → (try_rules out rules ctx n ≢ paused) × (try_rules out rules ctx n ≢ no_rule))
          → (o : Outcome Decision)
          → ((elim o [
            | err note ↦ try_rules out rules ctx (notes ++ (rule.id, note) ∷ [])
            | ok decision ↦ routed decision notes
          ])
              ≢ paused)
            × ((elim o [
              | err note ↦ try_rules out rules ctx (notes ++ (rule.id, note) ∷ [])
              | ok decision ↦ routed decision notes
            ])
                ≢ no_rule)
      by_rule rec (err note) = rec (notes ++ (rule.id, note) ∷ [])
      by_rule rec (ok d) = (cc, cc)

  decide_among-refuses :
      (l : List Rule)
      → (decide_among out l ctx ≢ paused)
        × (decide_among out l ctx ≡ no_rule → l ≡ [])
        × ((notes : List (Text × Note)) → decide_among out l ctx ≡ no_route notes → All Refused l)
  decide_among-refuses [] = (cc, λ e. refl, λ n e. cc)
  decide_among-refuses (r ∷ l) =
      let (not_paused, some_rule) = try_rules-tries (r ∷ l) [] in
      (not_paused, λ e. absurd (some_rule e), λ n e. try_rules-Refused (r ∷ l) [] n e)

  -- Without a decision the role is paused, or it has no rule, or every rule of it was tried and
  -- refused.
  pub decide_refuses :
      (paused_roles : List Text) (rules : List Rule) (role : Text)
      → (decide out paused_roles rules role ctx ≡ paused → contains paused_roles role ≡ true)
        × (decide out paused_roles rules role ctx ≡ no_rule → for_role rules role ≡ [])
        × ((notes : List (Text × Note))
            → decide out paused_roles rules role ctx ≡ no_route notes
            → All Refused (for_role rules role))
  unfolding decide
  decide_refuses paused_roles rules role = elim (Bool-cases (contains paused_roles role)) [
    | inl p ↦ (λ e. p, λ e. absurd (ground (arith, e, p)), λ n e. absurd (ground (arith, e, p)))
    | inr f ↦
        let (not_paused, none_of, refused) = decide_among-refuses (for_role rules role) in
        (
          λ e. absurd (not_paused (ground (arith, e, f))),
          λ e. none_of (ground (arith, e, f)),
          λ n e. refused n (ground (arith, e, f)),
        )
  ]
