-- ===== src/Providers/Tests.antt =====
-- The providers on concrete settings.
use role_n.Prelude.{
  ℕ, ◌+◌, ◌^◌, ◌≤◌, String, Bool, true, false, Option, none, some, List, [], ◌∷◌, eqb, ◌==◌,
  string_eq, list_eq, nat_eq, ◌≡◌, refl, arith, if◌then◌else◌,
}
use role_n.Core.Pricing.{api, cli, ollama_local, ProviderType}
use role_n.Core.Rules.Chain.{too_little}
use role_n.Providers.{Disk, holds, missing, Writes}
use role_n.Providers.Registry.{Provider, Model, key}
use role_n.Providers.Catalog.{refresh_models, refreshed}
use role_n.Providers.Quota.{Subscription, set_manual_budget}
use role_n.Providers.Remaining.{percent_left, percent_left_lem}
use role_n.Providers.Collect.{World, collect_cancellable, all_calls, collect_cancelled}

abbrev model : String → Bool → Model
model id manual = record {
  id = id;
  context_tokens = none;
  vision = false;
  tools = true;
  streaming = false;
  manual = manual;
}

abbrev provider : String → ProviderType → Provider
provider id ptype = record {
  id = id;
  ptype = ptype;
  auth = key;
  tunnel = none;
  endpoint = none;
  cli_path = none;
  key_ref = none;
  models = model "k3" false ∷ model "k3-256k" true ∷ [];
  suspended = false;
  quota_url = none;
  quota_json_path = none;
}

abbrev kimi : Provider
kimi = provider "kimi" api

abbrev registry : List Provider
registry = kimi ∷ provider "claude" cli ∷ provider "ollama" ollama_local ∷ []

abbrev listed : List Model
listed = model "k3" false ∷ model "k4" false ∷ []

abbrev written : Writes (List Provider)
written = record { write_ok = λ _. true; torn = λ _ old. old }

abbrev answers : Provider → Option (List Model)
answers p = if p.id == "kimi" then some listed else none

three-models : (refresh_models written answers "kimi" (holds registry)).0 ≡ refreshed 3
unfolding refresh_models
three-models = refl

abbrev budgets : Writes (List Subscription)
budgets = record { write_ok = λ _. true; torn = λ _ old. old }

abbrev disk : Disk (List Subscription)
disk = (set_manual_budget budgets "kimi" 500 missing).1

-- A third of the limit is left: 33 percent.
percent_left_lem_example :
    (percent_left 300 200 ≤ 100)
    × (too_little (some 34) (some (percent_left 300 200)) ≡ true)
    × (percent_left 300 0 ≡ 100)
    × (percent_left 300 (300 + 200) ≡ 0)
percent_left_lem_example = percent_left_lem 300 200 34 (omega arith) (omega arith)

-- A limit of 2^62 tokens is multiplied by 100 past 64 bits: of an unused limit nothing seems left.
huge_limit : percent_left (2 ^ 62) 0 ≡ 0
unfolding percent_left
huge_limit = refl

abbrev world : ℕ → World ℕ
world stop = record {
  cancelled = λ n. eqb n stop;
  health = λ p. true;
  remaining_pct = λ id. some 50;
  cost_so_far = λ id. 0;
  now = (12, 0);
}

collect_cancelled_example :
    collect_cancellable (world 1) registry
    ≡ record { result = none; calls = all_calls (world 1) 3 0 (kimi ∷ []) }
collect_cancelled_example =
    collect_cancelled (world 1) registry 1 (omega arith) (λ i a b. ground (arith, b)) refl
