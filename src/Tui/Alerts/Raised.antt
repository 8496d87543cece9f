-- ===== src/Tui/Alerts/Raised.antt =====
-- Which dialogs `check_alerts` of mission_control.rs shows, and when they are shown again.
use role_n.Prelude.{
  ℕ, String, false, Option, none, some, List, [], ◌∷◌, ◌++◌, map, if◌then◌else◌, ◌==◌, ==_iff,
  string_eq, contains, filter, ◌≡◌, refl, arith, ap, sym, ◌∙◌, append-nil,
}
use role_n.Prelude.Keyed.{find_key, has_key, UniqueKeys}
use role_n.Core.Types.{Text}
use role_n.Core.Rules.{Rule}
use role_n.Providers.{Disk, missing, unreadable, holds, load, Writes}
use role_n.Providers.Registry.{Provider}
use role_n.Providers.Quota.{QuotaSource, Subscription, provider_of}
use role_n.Tui.Alerts.{Quotas, Alerts, on_subscription, on_subscriptions, check_alerts}
use role_n.Core.Ledger.{Chrono}
use role_n.Core.Ledger.Usage.{Costs, EntryRow}
use role_n.Providers.Quota.{plan_limit}
use role_n.Providers.Remaining.{remaining_pct}
use role_n.Tui.Alerts.Steps.{
  shown_ids, alerted_after, settled, fires, Stepped-alerted, Stepped-shown, find_key-absent,
  one_more, on_subscription-Stepped,
}

module _ (q : Quotas) (reg_file : Writes (List Provider)) (paused_file : Writes (List Text))
    (rules : Disk (List Rule)) (limit_of : String → Option (ℕ × QuotaSource))
    (remaining : String → Option ℕ) where
  abbrev run : List Subscription → Alerts → Alerts
  run subs a = on_subscriptions q reg_file paused_file rules limit_of remaining subs a

  filter-fires :
      (id : String) (a b : Alerts) (subs : List Subscription)
      → ((j : String)
          → contains b.alerted j ≡ (if id == j then contains b.alerted j else contains a.alerted j))
      → has_key provider_of id subs ≡ false
      → filter (fires q remaining b) subs ≡ filter (fires q remaining a) subs
  filter-fires id a b [] agree h = refl
  filter-fires id a b (s ∷ subs) agree h = ground (
    arith,
    h,
    agree s.provider_id,
    ==_iff id s.provider_id,
    ==_iff s.provider_id id,
    filter-fires id a b subs agree,
  )

  run-alerted :
      (subs : List Subscription) (a : Alerts) (j : String)
      → UniqueKeys provider_of subs
      → contains (run subs a).alerted j
        ≡ settled q remaining (find_key provider_of j subs) (contains a.alerted j)
  unfolding on_subscriptions find_key
  run-alerted [] a j u = refl
  run-alerted (s ∷ subs) a j (f, u) =
      let b = on_subscription q reg_file paused_file rules limit_of remaining s a in
      run-alerted subs b j u
      ∙ ground (
        arith,
        f,
        Stepped-alerted q reg_file paused_file rules limit_of remaining s a b j
            (on_subscription-Stepped q reg_file paused_file rules limit_of remaining s a j),
        ==_iff s.provider_id j,
        find_key-absent s.provider_id subs,
      )

  run-shown :
      (subs : List Subscription) (a : Alerts)
      → UniqueKeys provider_of subs
      → shown_ids (run subs a) ≡ shown_ids a ++ map provider_of (filter (fires q remaining a) subs)
  unfolding on_subscriptions
  run-shown [] a u = sym (append-nil (shown_ids a))
  run-shown (s ∷ subs) a (f, u) =
      let b = on_subscription q reg_file paused_file rules limit_of remaining s a in
      let same =
        filter-fires s.provider_id a b subs
          (λ j. ground (
            arith,
            Stepped-alerted q reg_file paused_file rules limit_of remaining s a b j
                (on_subscription-Stepped q reg_file paused_file rules limit_of remaining s a j),
          ))
          f in
      run-shown subs b u
      ∙ ap (λ l. shown_ids b ++ map provider_of l) same
      ∙ ap (λ l. l ++ map provider_of (filter (fires q remaining a) subs))
          (Stepped-shown q reg_file paused_file rules limit_of remaining s a b (
            on_subscription-Stepped q reg_file paused_file rules limit_of remaining s a
              s.provider_id))
      ∙ one_more (shown_ids a) (fires q remaining a s) s (filter (fires q remaining a) subs)

  quiet :
      (subs : List Subscription) (a b : Alerts)
      → UniqueKeys provider_of subs
      → ((j : String) (s : Subscription)
          → find_key provider_of j subs ≡ some s
          → contains b.alerted j ≡ alerted_after q remaining s (contains a.alerted j))
      → filter (fires q remaining b) subs ≡ []
  unfolding find_key
  quiet [] a b u h = refl
  quiet (s ∷ subs) a b (f, u) h =
      let rest = quiet subs a b u (λ j t e.
        h j t (ground (arith, e, f, ==_iff s.provider_id j, find_key-absent s.provider_id subs))) in
      ground (arith, h s.provider_id s (ground (arith, ==_iff s.provider_id s.provider_id)), rest)

  run-twice :
      (subs : List Subscription) (a b : Alerts)
      → UniqueKeys provider_of subs
      → b.alerted ≡ (run subs a).alerted
      → shown_ids (run subs b) ≡ shown_ids b
  run-twice subs a b u same =
      let none_fires = quiet subs a b u (λ j s e.
        ap (λ xs. contains xs j) same
        ∙ run-alerted subs a j u
        ∙ ap (λ o. settled q remaining o (contains a.alerted j)) e) in
      run-shown subs b u
      ∙ ap (λ l. shown_ids b ++ map provider_of l) none_fires
      ∙ append-nil (shown_ids b)

-- The quota of each provider, at a check.
abbrev pub levels :
    {F : Type 0}
    → Costs F
    → Chrono
    → ℕ
    → Disk (List Subscription)
    → Option (List (EntryRow F))
    → String
    → Option ℕ
levels costs chrono month_start file ledger id =
    remaining_pct costs chrono month_start id file ledger

check_alerts-run :
    {F : Type 0} (costs : Costs F) (chrono : Chrono) (month_start : ℕ)
    → (reg_file : Writes (List Provider)) (paused_file : Writes (List Text)) (q : Quotas)
    → (file : Disk (List Subscription)) (ledger : Option (List (EntryRow F)))
    → (rules : Disk (List Rule)) (subs : List Subscription) (a : Alerts) → load [] file ≡ some subs
    → check_alerts costs chrono month_start reg_file paused_file (some q) file ledger rules a
      ≡ run q reg_file paused_file rules
          (λ id. plan_limit id file)
          (levels costs chrono month_start file ledger)
          subs
          (record a { worst = none })
unfolding check_alerts
check_alerts-run costs chrono month_start reg_file paused_file q missing ledger rules subs a l =
    let e : [] ≡ subs = cc l in
    ap
      (λ s.
        run q reg_file paused_file rules (λ id. plan_limit id missing)
          (levels costs chrono month_start missing ledger) s (record a { worst = none }))
      e
check_alerts-run costs chrono month_start reg_file paused_file q unreadable ledger rules subs a l =
    absurd (ground (arith, l))
check_alerts-run costs chrono month_start reg_file paused_file q (holds s) ledger rules subs a l =
    let e : s ≡ subs = cc l in
    ap
      (λ t.
        run q reg_file paused_file rules (λ id. plan_limit id (holds s))
          (levels costs chrono month_start (holds s) ledger) t (record a { worst = none }))
      e

-- A check shows a dialog for exactly the providers whose usage is critical and whose alert is armed, in
-- the order of the subscriptions, and none when nothing has changed since the check before; after it,
-- the alert of a provider is armed exactly if it was armed before and the usage is not critical, or if
-- the usage is in the range from warning to critical: a usage that has fallen below the warning arms
-- nothing. It is supposed that the settings and the subscriptions can be read, and that the
-- subscriptions are of different providers.
pub check_alerts_lem :
    {F : Type 0} (costs : Costs F) (chrono : Chrono) (month_start : ℕ)
    → (reg_file : Writes (List Provider)) (paused_file : Writes (List Text)) (q : Quotas)
    → (file : Disk (List Subscription)) (ledger : Option (List (EntryRow F)))
    → (rules : Disk (List Rule)) (subs : List Subscription) (a : Alerts) (j : String)
    → load [] file ≡ some subs
    → UniqueKeys provider_of subs
    → let remaining = levels costs chrono month_start file ledger in
      let check =
        check_alerts costs chrono month_start reg_file paused_file (some q) file ledger rules in
      (shown_ids (check a) ≡ shown_ids a ++ map provider_of (filter (fires q remaining a) subs))
      × (shown_ids (check (check a)) ≡ shown_ids (check a))
      × (contains (check a).alerted j
          ≡ settled q remaining (find_key provider_of j subs) (contains a.alerted j))
check_alerts_lem costs chrono month_start reg_file paused_file q file ledger rules subs a j l u =
    let remaining = levels costs chrono month_start file ledger in
    let limit_of = λ (id : String). plan_limit id file in
    let a0 = record a { worst = none } in
    let check =
      check_alerts costs chrono month_start reg_file paused_file (some q) file ledger rules in
    let first =
      check_alerts-run costs chrono month_start reg_file paused_file q file ledger rules subs a l in
    let second =
      check_alerts-run costs chrono month_start reg_file paused_file q file ledger rules subs
        (check a) l in
    (
      ap shown_ids first ∙ run-shown q reg_file paused_file rules limit_of remaining subs a0 u,
      ap shown_ids second
          ∙ run-twice q reg_file paused_file rules limit_of remaining subs a0
              (record (check a) { worst = none }) u (ap (λ c. c.alerted) first),
      ap (λ c. contains c.alerted j) first
          ∙ run-alerted q reg_file paused_file rules limit_of remaining subs a0 j u,
    )
