-- ===== src/Tui/Alerts/Steps.antt =====
-- One subscription in `check_alerts` of mission_control.rs: whether a dialog is shown, and whether the
-- alert of its provider is armed after it.
use role_n.Prelude.{
  ℕ, ◌-◌, String, Bool, true, false, not, ◌&&◌, Option, none, some, List, [], ◌∷◌, ◌++◌, map,
  if◌then◌else◌, leb, ◌==◌, ==_iff, string_eq, contains, filter, ◌≡◌, refl, arith, ap, sym, ◌∙◌,
  Bool-cases, Option-cases, inl, inr, append-nil, append_assoc,
}
use role_n.Prelude.Keyed.{find_key, has_key}
use role_n.Core.Types.{Text}
use role_n.Core.Rules.{Rule}
use role_n.Providers.{Disk, Writes}
use role_n.Providers.Registry.{Provider}
use role_n.Providers.Quota.{QuotaSource, Subscription, provider_of}
use role_n.Tui.Alerts.{
  Quotas, Alerts, Shown, AlertAction, notify, switch_rule, pause_role, perform_action, toasted,
  raise, note_worst, on_warned, on_subscription,
}

-- The providers of the dialogs, in order.
abbrev pub shown_ids : Alerts → List String
shown_ids a = map (λ (d : Shown). d.provider_id) a.dialogs

contains-filter :
    (id j : String) (xs : List String)
    → contains (filter (λ x. not (x == id)) xs) j ≡ (if id == j then false else contains xs j)
contains-filter id j [] = ground arith
contains-filter id j (x ∷ xs) =
    ground (arith, ==_iff x id, ==_iff x j, ==_iff id j, contains-filter id j xs)

map-append-one :
    (ds : List Shown) (d : Shown)
    → map (λ (d : Shown). d.provider_id) (ds ++ d ∷ [])
      ≡ map (λ (d : Shown). d.provider_id) ds ++ d.provider_id ∷ []
map-append-one [] d = refl
map-append-one (x ∷ ds) d = ap (λ l. x.provider_id ∷ l) (map-append-one ds d)

abbrev pub one_if : Bool → String → List String
one_if true id = id ∷ []
one_if false id = []

pub find_key-absent :
    (id : String) (subs : List Subscription)
    → has_key provider_of id subs ≡ false
    → find_key provider_of id subs ≡ none
unfolding find_key
find_key-absent id [] h = refl
find_key-absent id (s ∷ subs) h = ground (arith, h, find_key-absent id subs)

pub one_more :
    (ids : List String) (b : Bool) (s : Subscription) (rest : List Subscription)
    → (ids ++ one_if b s.provider_id) ++ map provider_of rest
      ≡ ids ++ map provider_of (if b then s ∷ rest else rest)
one_more ids true s rest = append_assoc ids (s.provider_id ∷ []) (map provider_of rest)
one_more ids false s rest = append_assoc ids [] (map provider_of rest)

-- What is asked of the usage.
module _ (q : Quotas) (remaining : String → Option ℕ) where
  abbrev pub reaches : Option ℕ → ℕ → Bool
  reaches none pct = false
  reaches (some left) pct = leb pct (100 - left)

  -- The provider has a limit, and has used this percentage of it.
  abbrev pub reached : ℕ → Subscription → Bool
  reached pct s = elim s.plan_limit [
    | none ↦ false
    | some _ ↦ reaches (remaining s.provider_id) pct
  ]

  abbrev pub critical : Subscription → Bool
  critical s = reached q.warn_pct s && reached q.crit_pct s

  abbrev pub warned : Subscription → Bool
  warned s = reached q.warn_pct s && not (reached q.crit_pct s)

  -- Whether the alert of a provider is armed no more, after a check of its subscription.
  abbrev pub alerted_after : Subscription → Bool → Bool
  alerted_after s was = if critical s then true else if warned s then false else was

  abbrev pub settled : Option Subscription → Bool → Bool
  settled none was = was
  settled (some s) was = alerted_after s was

  abbrev pub fires : Alerts → Subscription → Bool
  fires a s = critical s && not (contains a.alerted s.provider_id)

module _ (q : Quotas) (reg_file : Writes (List Provider)) (paused_file : Writes (List Text))
    (rules : Disk (List Rule)) (limit_of : String → Option (ℕ × QuotaSource))
    (remaining : String → Option ℕ) where
  raise-shown :
      (action : AlertAction) (id : String) (a : Alerts)
      → ((perform_action q reg_file paused_file rules limit_of remaining action id a).0.alerted
          ≡ a.alerted)
        × ((perform_action q reg_file paused_file rules limit_of remaining action id a).0.dialogs
            ≡ a.dialogs)
  unfolding perform_action
  raise-shown notify id a = (refl, refl)
  raise-shown switch_rule id a = (refl, refl)
  raise-shown pause_role id a = (refl, refl)

  raise-alerted :
      (id : String) (used : ℕ) (a : Alerts)
      → ((raise q reg_file paused_file rules limit_of remaining id used a).alerted ≡ id ∷ a.alerted)
        × (shown_ids (raise q reg_file paused_file rules limit_of remaining id used a)
            ≡ shown_ids a ++ id ∷ [])
  unfolding raise
  raise-alerted id used a =
      let (kept, same) =
        raise-shown q.action id
          (toasted q reg_file paused_file rules limit_of remaining id used a) in
      (kept, map-append-one _ _ ∙ ap (λ ds. map (λ (d : Shown). d.provider_id) ds ++ id ∷ []) same)

  on_warned-alerted :
      (id : String) (used : ℕ) (a : Alerts) (j : String)
      → let b = on_warned q reg_file paused_file rules limit_of remaining id used a in
        (contains b.alerted j ≡ (if id == j then leb q.crit_pct used else contains a.alerted j))
        × (shown_ids b
            ≡ shown_ids a ++ one_if (leb q.crit_pct used && not (contains a.alerted id)) id)
  unfolding on_warned
  on_warned-alerted id used a j =
      let b = note_worst q reg_file paused_file rules limit_of remaining id used a in
      let (kept, more) = raise-alerted id used b in
      elim (Bool-cases (leb q.crit_pct used)) [
        | inr e ↦ rw e (contains-filter id j a.alerted, sym (append-nil (shown_ids a)))
        | inl e ↦ elim (Bool-cases (contains a.alerted id)) [
          | inl t ↦ rw (e, t) (ground (arith, t, ==_iff id j), sym (append-nil (shown_ids a)))
          | inr t ↦ rw (e, t) (ground (arith, kept), more)
        ]
      ]

  pub Stepped : Subscription → Alerts → Alerts → String → Type 0
  Stepped s a b j =
      (contains b.alerted j ≡ (
        if s.provider_id == j
        then alerted_after q remaining s (contains a.alerted j)
        else contains a.alerted j))
      × (shown_ids b ≡ shown_ids a ++ one_if (fires q remaining a s) s.provider_id)

  pub Stepped-alerted :
      (s : Subscription) (a b : Alerts) (j : String)
      → Stepped s a b j
      → contains b.alerted j ≡ (
          if s.provider_id == j
          then alerted_after q remaining s (contains a.alerted j)
          else contains a.alerted j)
  unfolding Stepped
  Stepped-alerted s a b j h = h.0

  pub Stepped-shown :
      (s : Subscription) (a b : Alerts)
      → Stepped s a b s.provider_id
      → shown_ids b ≡ shown_ids a ++ one_if (fires q remaining a s) s.provider_id
  unfolding Stepped
  Stepped-shown s a b h = h.1

  pub on_subscription-Stepped :
      (s : Subscription) (a : Alerts) (j : String)
      → Stepped s a (on_subscription q reg_file paused_file rules limit_of remaining s a) j
  unfolding on_subscription Stepped
  on_subscription-Stepped s a j = elim (Option-cases s.plan_limit) [
    | inl n ↦ rw n (ground arith, sym (append-nil (shown_ids a)))
    | inr (_, l) ↦ elim (Option-cases (remaining s.provider_id)) [
      | inl n ↦ rw (l, n) (ground arith, sym (append-nil (shown_ids a)))
      | inr (left, r) ↦ elim (Bool-cases (leb q.warn_pct (100 - left))) [
        | inr w ↦ rw (l, r, w) (ground arith, sym (append-nil (shown_ids a)))
        | inl w ↦
            let (after, shown) = on_warned-alerted s.provider_id (100 - left) a j in
            rw (l, r, w) (after ∙ ground arith, shown)
      ]
    ]
  ]
