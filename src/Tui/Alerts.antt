-- ===== src/Tui/Alerts.antt =====
-- `check_alerts` of rolen-tui/src/mission_control.rs: the alerts on the quotas of the providers, which
-- are raised at every tick of the screen. The texts of the dialogs are the data that they show.
pub mod Steps
pub mod Raised
mod Tests
use role_n.Prelude.{
  ℕ, ◌-◌, String, Bool, true, false, not, ◌&&◌, Option, none, some, List, [], ◌∷◌, ◌++◌, map,
  if◌then◌else◌, leb, ltb, ◌==◌, nat_eq, list_eq, option_eq, string_eq, contains, filter, any,
}
use role_n.Core.Types.{Text}
use role_n.Core.Text.{codes, split, trim}
use role_n.Core.Rules.{Rule}
use role_n.Core.Rules.Paused.{sort_roles, set_role_paused}
use role_n.Core.Ledger.{Chrono}
use role_n.Core.Ledger.Usage.{Costs, EntryRow}
use role_n.Providers.{Disk, load, Writes, save}
use role_n.Providers.Registry.{Provider, set_suspended}
use role_n.Providers.Quota.{QuotaSource, Subscription, plan_limit}
use role_n.Providers.Remaining.{remaining_pct}

pub data AlertAction : Type 0 where
  notify switch_rule pause_role : AlertAction

pub record Quotas : Type 0 where
  pub warn_pct : ℕ
  pub crit_pct : ℕ
  pub action : AlertAction
  pub os_notifications : Bool

-- What the note in the dialog says.
pub data ActionNote : Type 0 where
  no_action suspended_note : ActionNote
  paused_note : List Text → ActionNote

pub record Shown : Type 0 where
  pub provider_id : String
  pub used : ℕ
  pub limit : Option (ℕ × QuotaSource)
  pub note : ActionNote

pub record Alerts : Type 0 where
  -- a set
  pub alerted : List String
  pub worst : Option (String × ℕ)
  pub toasts : List (String × ℕ)
  pub dialogs : List Shown
  pub registry : Disk (List Provider)
  pub paused : Disk (List Text)

-- `dedup`, of neighbours.
unfoldable pub dedup : List Text → List Text
dedup [] = []
dedup (r ∷ []) = r ∷ []
dedup (r ∷ s ∷ roles) = let rest = dedup (s ∷ roles) in if r == s then rest else r ∷ rest

-- `split('/').next().map(str::trim)`
abbrev pub first_part : List Text → Option Text
first_part [] = none
first_part (p ∷ parts) = some (trim p)

abbrev pub routes_through : String → Rule → Bool
routes_through id r = any (λ e. first_part (split b'/' e) == some (codes id)) r.fallback_chain

abbrev pub rules_or_none : Option (List Rule) → List Rule
rules_or_none none = []
rules_or_none (some rules) = rules

unfoldable pub roles_through : String → Disk (List Rule) → List Text
unfolding sort_roles dedup split trim
roles_through id rules = dedup (
    sort_roles
      (map (λ (r : Rule). r.role) (filter (routes_through id) (rules_or_none (load [] rules)))))

abbrev pub worse : Option (String × ℕ) → ℕ → Bool
worse none used = true
worse (some (_, u)) used = ltb u used

abbrev pub or_same : Bool → Disk (List Provider) → Disk (List Provider) → Disk (List Provider)
or_same true new old = new
or_same false new old = old

module _ (q : Quotas) (reg_file : Writes (List Provider)) (paused_file : Writes (List Text))
    (rules : Disk (List Rule)) (limit_of : String → Option (ℕ × QuotaSource))
    (remaining : String → Option ℕ) where
  -- Errors of the writes are ignored.
  abbrev pub suspend_in :
      String → Option (List Provider) → Disk (List Provider) → Disk (List Provider)
  suspend_in id none disk = disk
  suspend_in id (some reg) disk =
      let (found, reg') = set_suspended id true reg in
      or_same found (save reg_file reg' disk).1 disk

  unfoldable pub pause_all : List Text → Disk (List Text) → Disk (List Text)
  unfolding set_role_paused
  pause_all [] disk = disk
  pause_all (role ∷ roles) disk = pause_all roles (set_role_paused paused_file role true disk).1

  unfoldable pub perform_action : AlertAction → String → Alerts → Alerts × ActionNote
  unfolding set_suspended pause_all roles_through
  perform_action notify id a = (a, no_action)
  perform_action switch_rule id a =
      (record a { registry = suspend_in id (load [] a.registry) a.registry }, suspended_note)
  perform_action pause_role id a =
      let roles = roles_through id rules in
      (record a { paused = pause_all roles a.paused }, paused_note roles)

  abbrev pub toasted : String → ℕ → Alerts → Alerts
  toasted id used a = record a {
    alerted = id ∷ a.alerted;
    toasts = if q.os_notifications then a.toasts ++ (id, used) ∷ [] else a.toasts;
  }

  unfoldable pub raise : String → ℕ → Alerts → Alerts
  unfolding perform_action
  raise id used a =
      let (b, note) = perform_action q.action id (toasted id used a) in
      record b {
        dialogs =
            b.dialogs
            ++ record { provider_id = id; used = used; limit = limit_of id; note = note } ∷ [];
      }

  abbrev pub note_worst : String → ℕ → Alerts → Alerts
  note_worst id used a = record a {
    worst = if worse a.worst used then some (id, used) else a.worst;
  }

  -- Below the critical percentage the alert can be raised again.
  abbrev pub rearm : String → Alerts → Alerts
  rearm id a = record a { alerted = filter (λ x. not (x == id)) a.alerted }

  -- A provider whose usage has reached the warning percentage.
  unfoldable pub on_warned : String → ℕ → Alerts → Alerts
  unfolding raise
  on_warned id used a =
      let b = note_worst id used a in
      if leb q.crit_pct used
      then (if contains b.alerted id then b else raise id used b)
      else rearm id b

  abbrev pub on_remaining : String → Option ℕ → Alerts → Alerts
  on_remaining id none a = a
  on_remaining id (some left) a =
      if leb q.warn_pct (100 - left) then on_warned id (100 - left) a else a

  unfoldable pub on_subscription : Subscription → Alerts → Alerts
  unfolding on_warned
  on_subscription s a = elim s.plan_limit [
    | none ↦ a
    | some _ ↦ on_remaining s.provider_id (remaining s.provider_id) a
  ]

  unfoldable pub on_subscriptions : List Subscription → Alerts → Alerts
  unfolding on_subscription
  on_subscriptions [] a = a
  on_subscriptions (s ∷ subs) a = on_subscriptions subs (on_subscription s a)

-- One check: nothing is done if the settings or the subscriptions cannot be read.
module _ {F : Type 0} (costs : Costs F) (chrono : Chrono) (month_start : ℕ)
    (reg_file : Writes (List Provider)) (paused_file : Writes (List Text)) where
  abbrev checking :
      Quotas
      → List Subscription
      → Disk (List Subscription)
      → Option (List (EntryRow F))
      → Disk (List Rule)
      → Alerts
      → Alerts
  checking q subs file ledger rules a =
      on_subscriptions q reg_file paused_file rules (λ id. plan_limit id file)
        (λ id. remaining_pct costs chrono month_start id file ledger) subs
        (record a { worst = none })

  unfoldable pub check_alerts :
      Option Quotas
      → Disk (List Subscription)
      → Option (List (EntryRow F))
      → Disk (List Rule)
      → Alerts
      → Alerts
  unfolding on_subscriptions plan_limit remaining_pct
  check_alerts none file ledger rules a = a
  check_alerts (some q) file ledger rules a = elim (load [] file) [
    | none ↦ a
    | some subs ↦ checking q subs file ledger rules a
  ]
