-- ===== src/Providers/Quota.antt =====
-- rolen-providers/src/quota.rs: the subscriptions, which hold the plan limit of each provider.
use role_n.Prelude.{
  ℕ, String, Bool, true, false, Option, none, some, List, [], if◌then◌else◌, eqb, length, string_eq,
}
use role_n.Prelude.Keyed.{find_key, change_key, retain_not}
use role_n.Providers.{Disk, load, Writes, save}

pub data QuotaSource : Type 0 where
  api_source parsed manual_source estimated : QuotaSource

pub record Subscription : Type 0 where
  pub provider_id : String
  pub plan_limit : Option ℕ
  pub used : ℕ
  pub cycle_start : Option ℕ
  pub renewal : Option ℕ
  pub source : QuotaSource

abbrev pub provider_of : Subscription → String
provider_of s = s.provider_id

abbrev pub new_subscription : String → Subscription
new_subscription id = record {
  provider_id = id;
  plan_limit = none;
  used = 0;
  cycle_start = none;
  renewal = none;
  source = manual_source;
}

abbrev pub with_budget : ℕ → Subscription → Subscription
with_budget limit s = record s { plan_limit = some limit; source = manual_source }

-- The new value, if there is one.
abbrev or_old : Option ℕ → Option ℕ → Option ℕ
or_old none old = old
or_old (some new) old = some new

abbrev pub with_cycle : Option ℕ → Option ℕ → Subscription → Subscription
with_cycle cycle_start renewal s = record s {
  cycle_start = or_old cycle_start s.cycle_start;
  renewal = or_old renewal s.renewal;
}

abbrev pub with_synced : ℕ → Option ℕ → QuotaSource → Subscription → Subscription
with_synced used limit source s = record s {
  used = used;
  plan_limit = or_old limit s.plan_limit;
  source = source;
}

-- A change of the subscription of a provider, new or not, in the list.
unfoldable pub change :
    String → (Subscription → Subscription) → List Subscription → List Subscription
unfolding change_key
change id f subs = change_key provider_of id f (f (new_subscription id)) subs

module _ (w : Writes (List Subscription)) where
  -- `load()?`, a change, and `save`: whether it succeeds, and the file after it.
  unfoldable pub update :
      (List Subscription → List Subscription)
      → Disk (List Subscription)
      → Bool × Disk (List Subscription)
  update f disk = elim (load [] disk) [ none ↦ (false, disk) | some subs ↦ save w (f subs) disk ]

  unfoldable pub set_manual_budget :
      String → ℕ → Disk (List Subscription) → Bool × Disk (List Subscription)
  unfolding update change
  set_manual_budget id limit disk = update (change id (with_budget limit)) disk

  unfoldable pub set_cycle :
      String → Option ℕ → Option ℕ → Disk (List Subscription) → Bool × Disk (List Subscription)
  unfolding update change
  set_cycle id cycle_start renewal disk = update (change id (with_cycle cycle_start renewal)) disk

  unfoldable pub record_synced :
      String
      → ℕ
      → Option ℕ
      → QuotaSource
      → Disk (List Subscription)
      → Bool × Disk (List Subscription)
  unfolding update change
  record_synced id used limit source disk = update (change id (with_synced used limit source)) disk

  -- `Ok(removed)`; nothing is written if nothing was removed.
  unfoldable pub cleared :
      String → List Subscription → Disk (List Subscription) → Option Bool × Disk (List Subscription)
  unfolding retain_not
  cleared id subs disk =
      let left = retain_not provider_of id subs in
      if eqb (length left) (length subs)
      then (some false, disk)
      else (let (ok, disk') = save w left disk in (if ok then some true else none, disk'))

  unfoldable pub clear_budget :
      String → Disk (List Subscription) → Option Bool × Disk (List Subscription)
  unfolding cleared
  clear_budget id disk = elim (load [] disk) [
    | none ↦ (none, disk)
    | some subs ↦ cleared id subs disk
  ]

abbrev pub limit_of : Option Subscription → Option (ℕ × QuotaSource)
limit_of none = none
limit_of (some s) = elim s.plan_limit [ none ↦ none | some l ↦ some (l, s.source) ]

unfoldable pub plan_limit : String → Disk (List Subscription) → Option (ℕ × QuotaSource)
unfolding find_key
plan_limit id disk = elim (load [] disk) [
  | none ↦ none
  | some subs ↦ limit_of (find_key provider_of id subs)
]
