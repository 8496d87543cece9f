-- ===== src/Providers/Budget.antt =====
-- What `plan_limit` of quota.rs says after each operation.
use role_n.Prelude.{
  String, Bool, true, false, Option, none, some, List, [], if◌then◌else◌, ◌==◌, string_eq, ◌≡◌,
}
use role_n.Prelude.Keyed.{find_key, is_found, changed}
use role_n.Providers.{Disk, load}
use role_n.Providers.Quota.{Subscription, provider_of, new_subscription}

-- The subscription of a provider on disk.
pub subscription : String → Disk (List Subscription) → Option Subscription
unfolding find_key
subscription id disk = elim (load [] disk) [
  | none ↦ none
  | some subs ↦ find_key provider_of id subs
]

-- What a successful change says of the subscription of every provider.
abbrev pub Changed :
    String
    → (Subscription → Subscription)
    → Disk (List Subscription)
    → Bool × Disk (List Subscription)
    → String
    → Type 0
Changed id f disk (false, disk') j = Unit
Changed id f disk (true, disk') j = subscription j disk' ≡ (
    if id == j
    then some (changed provider_of f (f (new_subscription id)) (subscription id disk))
    else subscription j disk)

-- What a clearing says: an error, or whether there was a subscription, and then only it is gone.
abbrev pub Cleared :
    String → Disk (List Subscription) → Option Bool × Disk (List Subscription) → String → Type 0
Cleared id disk (none, disk') j = Unit
Cleared id disk (some removed, disk') j =
    (removed ≡ is_found provider_of (subscription id disk))
    × (subscription j disk' ≡ (if id == j then none else subscription j disk))
