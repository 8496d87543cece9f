-- ===== src/Providers/Remaining.antt =====
-- `remaining_pct` of rolen-providers/src/routing.rs: the quota that a provider has left, from its plan
-- limit and the usage in the ledger, and what the rules make of it.
use native.Mathlib.Nat.{
  div-lt_iff_lt-mul, div-le_of_le-mul, mod-eq_of_lt, mul-div_cancel_left, zero-div,
}
use role_n.Prelude.{
  ℕ, ◌+◌, ◌-◌, ◌*◌, ◌/◌, ◌%◌, ◌^◌, ◌<◌, ◌≤◌, min, String, Bool, true, false, ◌&&◌, Option, none,
  some, List, [], if◌then◌else◌, eqb, ltb, string_eq, ◌≡◌, arith, ◌∙◌,
}
use role_n.Prelude.Keyed.{find_key}
use role_n.Core.Ledger.{Chrono}
use role_n.Core.Ledger.Usage.{Costs, EntryRow, UsageSummary, usage_since, total_tokens}
use role_n.Core.Rules.Chain.{too_little}
use role_n.Providers.{Disk, load}
use role_n.Providers.Quota.{
  QuotaSource, api_source, parsed, manual_source, estimated, Subscription, provider_of,
}

abbrev pub is_synced : QuotaSource → Bool
is_synced api_source = true
is_synced parsed = true
is_synced manual_source = false
is_synced estimated = false

-- `((remaining * 100) / limit).min(100) as u8`, on numbers of 64 bits.
unfoldable pub percent_left : ℕ → ℕ → ℕ
percent_left limit used = min ((limit - used) * 100 % 2 ^ 64 / limit) 100

module _ {F : Type 0} (costs : Costs F) (chrono : Chrono) (month_start : ℕ) where
  abbrev pub cycle_of : Subscription → ℕ
  cycle_of s = elim s.cycle_start [ none ↦ month_start | some t ↦ t ]

  abbrev total_of : Option (UsageSummary F) → Option ℕ
  total_of none = none
  total_of (some u) = some (total_tokens u)

  -- Synced numbers are authoritative; else the ledger since the start of the cycle counts.
  unfoldable pub used_total : Subscription → List (EntryRow F) → Option ℕ
  unfolding usage_since total_tokens
  used_total s rows =
      if is_synced s.source && ltb 0 s.used
      then some s.used
      else total_of (usage_since costs chrono (some s.provider_id) (chrono.print (cycle_of s)) rows)

  abbrev percent_of : ℕ → Option ℕ → Option ℕ
  percent_of limit none = none
  percent_of limit (some used) = some (percent_left limit used)

  -- The ledger is opened before the source is looked at: `none` if it cannot be.
  abbrev against_ledger : Subscription → ℕ → Option (List (EntryRow F)) → Option ℕ
  against_ledger s limit none = none
  against_ledger s limit (some rows) = percent_of limit (used_total s rows)

  abbrev within_limit : Subscription → Option ℕ → Option (List (EntryRow F)) → Option ℕ
  within_limit s none ledger = none
  within_limit s (some limit) ledger = if eqb limit 0 then none else against_ledger s limit ledger

  abbrev of_subscription : Option Subscription → Option (List (EntryRow F)) → Option ℕ
  of_subscription none ledger = none
  of_subscription (some s) ledger = within_limit s s.plan_limit ledger

  unfoldable pub remaining_pct :
      String → Disk (List Subscription) → Option (List (EntryRow F)) → Option ℕ
  unfolding used_total percent_left find_key
  remaining_pct id disk ledger = elim (load [] disk) [
    | none ↦ none
    | some subs ↦ of_subscription (find_key provider_of id subs) ledger
  ]

product-fits :
    (limit used : ℕ) → limit * 100 < 2 ^ 64 → (limit - used) * 100 % 2 ^ 64 ≡ (limit - used) * 100
product-fits limit used h = mod-eq_of_lt (omega arith)

quotient-le : (limit used : ℕ) → (limit - used) * 100 / limit ≤ 100
quotient-le limit used = div-le_of_le-mul limit (omega arith)

percent_left-quotient :
    (limit used : ℕ) → limit * 100 < 2 ^ 64 → percent_left limit used ≡ (limit - used) * 100 / limit
unfolding percent_left
percent_left-quotient limit used h =
    rw (product-fits limit used h) (ground (arith, quotient-le limit used))

-- The quota left, as a rule reads it: for a limit that can be multiplied by 100 in 64 bits, it is at
-- most 100 percent, and a rule that asks for some percentage passes the provider over exactly if less
-- than that share of the limit is left, so that the rounding down decides nothing; all of the limit is
-- left if nothing is used, and nothing when the limit is used up.
pub percent_left_lem :
    (limit used least : ℕ)
    → 0 < limit
    → limit * 100 < 2 ^ 64
    → (percent_left limit used ≤ 100)
      × (too_little (some least) (some (percent_left limit used))
          ≡ (ltb 0 least && ltb ((limit - used) * 100) (least * limit)))
      × (percent_left limit 0 ≡ 100)
      × (percent_left limit (limit + used) ≡ 0)
percent_left_lem limit used least pos h =
    let q = percent_left-quotient limit used h in
    let q0 = percent_left-quotient limit 0 h in
    let gate = div-lt_iff_lt-mul {x = (limit - used) * 100} {y = least} pos in
    let none_left : limit - (limit + used) ≡ 0 = omega arith in
    let all_left : limit - 0 ≡ limit = omega arith in
    let q1 = percent_left-quotient limit (limit + used) h in
    (
      rw q (quotient-le limit used),
      rw q (ground (arith, gate)),
      q0 ∙ rw all_left (mul-div_cancel_left 100 pos),
      q1 ∙ rw none_left (zero-div limit),
    )
