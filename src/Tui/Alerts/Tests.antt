-- ===== src/Tui/Alerts/Tests.antt =====
-- The alerts of two providers, one of them critical.
use role_n.Prelude.{
  ℕ, ◌+◌, String, true, Option, none, some, List, [], ◌∷◌, ◌++◌, map, filter, contains, string_eq,
  ◌≡◌, refl,
}
use role_n.Prelude.Keyed.{find_key}
use role_n.Core.Text.{codes}
use role_n.Core.Ledger.{Chrono}
use role_n.Core.Ledger.Usage.{Costs}
use role_n.Providers.{missing, holds, Writes}
use role_n.Providers.Quota.{api_source, Subscription, provider_of}
use role_n.Tui.Alerts.{Quotas, switch_rule, Alerts, check_alerts, dedup}
use role_n.Tui.Alerts.Steps.{shown_ids, fires, settled}
use role_n.Tui.Alerts.Raised.{levels, check_alerts_lem}

abbrev quotas : Quotas
quotas = record { warn_pct = 80; crit_pct = 95; action = switch_rule; os_notifications = true }

abbrev subscription : String → ℕ → Subscription
subscription id used = record {
  provider_id = id;
  plan_limit = some 1000;
  used = used;
  cycle_start = none;
  renewal = none;
  source = api_source;
}

abbrev subs : List Subscription
subs = subscription "kimi" 970 ∷ subscription "anthropic" 850 ∷ []

abbrev fresh : Alerts
fresh = record {
  alerted = "anthropic" ∷ [];
  worst = none;
  toasts = [];
  dialogs = [];
  registry = missing;
  paused = missing;
}

abbrev costs : Costs ℕ
costs = record { zero = 0; sum = λ a b. a + b; storable = λ _. true }

abbrev chrono : Chrono
chrono = record { print = λ n. n ∷ []; read = λ _. none; now = 0; text_le = λ _ _. true }

abbrev written : {A : Type 0} → Writes A
written = record { write_ok = λ _. true; torn = λ _ old. old }

abbrev run_check : Alerts → Alerts
run_check a =
    check_alerts costs chrono 0 written written (some quotas) (holds subs) (some []) missing a

abbrev left : String → Option ℕ
left = levels costs chrono 0 (holds subs) (some [])

check_alerts_lem_example :
    (shown_ids (run_check fresh) ≡ [] ++ map provider_of (filter (fires quotas left fresh) subs))
    × (shown_ids (run_check (run_check fresh)) ≡ shown_ids (run_check fresh))
    × (contains (run_check fresh).alerted "anthropic"
        ≡ settled quotas left (find_key provider_of "anthropic" subs) true)
check_alerts_lem_example =
    check_alerts_lem costs chrono 0 written written quotas (holds subs) (some []) missing subs fresh
      "anthropic" refl (refl, (refl, tt))

check_alerts-kimi : shown_ids (run_check fresh) ≡ "kimi" ∷ []
unfolding check_alerts
check_alerts-kimi = refl

dedup-neighbours : dedup (codes "a" ∷ codes "a" ∷ codes "b" ∷ []) ≡ codes "a" ∷ codes "b" ∷ []
unfolding dedup
dedup-neighbours = refl
