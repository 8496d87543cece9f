-- ===== src/Core/Pricing.antt =====
-- The price list of rolen-core/src/pricing.rs: rates by provider and model, and what a model costs. A
-- rate, a 64-bit float, is of any type here: the list only stores it.
pub mod Store
pub mod Tokens
mod Tests
use role_n.Prelude.{
  ℕ, ◌+◌, ◌-◌, min, String, Bool, true, false, not, ◌&&◌, Option, none, some, List, [], ◌∷◌,
  if◌then◌else◌, eqb, ◌==◌, string_eq, find, filter, length,
}

pub data ProviderType : Type 0 where
  api cli ollama_local ollama_cloud ollama_remote : ProviderType

pub data Billing : Type 0 where
  free per_token subscription : Billing

abbrev pub billing : ProviderType → Billing
billing ollama_local = free
billing ollama_remote = free
billing api = per_token
billing cli = subscription
billing ollama_cloud = subscription

-- The token counts of one call.
pub record TokenCounts : Type 0 where
  pub input : ℕ
  pub cache_read : ℕ
  pub cache_write_5m : ℕ
  pub cache_write_1h : ℕ
  pub output : ℕ

abbrev pub fresh_input : TokenCounts → ℕ
fresh_input t = t.input - t.cache_read - t.cache_write_5m - t.cache_write_1h

pub record Rates (F : Type 0) : Type 0 where
  pub input : F
  pub output : F
  pub cache_read : Option F
  pub cache_write_5m : Option F
  pub cache_write_1h : Option F

pub data Price (F : Type 0) : Type 0 where
  free_price unknown : Price F
  known : Rates F → Price F
  plan : Option (Rates F) → Price F

pub record ModelPrice (F : Type 0) : Type 0 where
  pub provider_id : String
  pub model_id : String
  pub in_per_mtok : F
  pub out_per_mtok : F
  pub cached_in_per_mtok : Option F
  pub cache_write_5m_per_mtok : Option F
  pub cache_write_1h_per_mtok : Option F

-- The multiplication of a count by a rate, their sum, and the division by a million.
pub record Money (F : Type 0) : Type 0 where
  pub zero_usd : F
  pub times : ℕ → F → F
  pub plus : F → F → F
  pub per_million : F → F

-- The counts at which `cost` bills the five rates, in its order.
abbrev pub billed : TokenCounts → ℕ × ℕ × ℕ × ℕ × ℕ
billed t = (
  fresh_input t,
  min t.cache_read t.input,
  min t.cache_write_5m t.input,
  min t.cache_write_1h t.input,
  t.output,
)

module _ {F : Type 0} where
  abbrev or_rate : F → Option F → F
  or_rate rate none = rate
  or_rate rate (some own) = own

  pub rates_of : Price F → Option (Rates F)
  rates_of (known r) = some r
  rates_of (plan r) = r
  rates_of free_price = none
  rates_of unknown = none

  cost_at : Money F → Option (Rates F) → ℕ × ℕ × ℕ × ℕ × ℕ → F
  cost_at usd none counts = usd.zero_usd
  cost_at usd (some r) (fresh, read, write_5m, write_1h, output) = usd.per_million (
      usd.plus
        (usd.plus
          (usd.plus
            (usd.plus (usd.times fresh r.input) (usd.times read (or_rate r.input r.cache_read)))
            (usd.times write_5m (or_rate r.input r.cache_write_5m)))
          (usd.times write_1h (or_rate r.input r.cache_write_1h)))
        (usd.times output r.output))

  pub cost : Money F → Price F → TokenCounts → F
  unfolding cost_at rates_of
  cost usd price t = cost_at usd (rates_of price) (billed t)

  abbrev pub rates : ModelPrice F → Rates F
  rates e = record {
    input = e.in_per_mtok;
    output = e.out_per_mtok;
    cache_read = e.cached_in_per_mtok;
    cache_write_5m = e.cache_write_5m_per_mtok;
    cache_write_1h = e.cache_write_1h_per_mtok;
  }

  abbrev pub is_for : String → String → ModelPrice F → Bool
  is_for provider model e = e.provider_id == provider && e.model_id == model

  abbrev pub get : List (ModelPrice F) → String → String → Option (ModelPrice F)
  get entries provider model = find (is_for provider model) entries

  abbrev pub priced : String → String → Rates F → ModelPrice F
  priced provider model r = record {
    provider_id = provider;
    model_id = model;
    in_per_mtok = r.input;
    out_per_mtok = r.output;
    cached_in_per_mtok = r.cache_read;
    cache_write_5m_per_mtok = r.cache_write_5m;
    cache_write_1h_per_mtok = r.cache_write_1h;
  }

  -- The first entry of the model is overwritten, or a new one is pushed.
  pub set : String → String → Rates F → List (ModelPrice F) → List (ModelPrice F)
  set provider model r [] = priced provider model r ∷ []
  set provider model r (e ∷ entries) =
      let rest = set provider model r entries in
      if is_for provider model e then priced e.provider_id e.model_id r ∷ entries else e ∷ rest

  -- The entries that are left, and whether any was removed.
  pub clear : String → String → List (ModelPrice F) → List (ModelPrice F) × Bool
  clear provider model entries =
      let kept = filter (λ e. not (is_for provider model e)) entries in
      (kept, not (eqb (length kept) (length entries)))

  abbrev pub entered : Option (ModelPrice F) → Option (Rates F)
  entered none = none
  entered (some e) = some (rates e)

  abbrev pub price_of : Billing → Option (Rates F) → Price F
  price_of free r = free_price
  price_of subscription r = plan r
  price_of per_token (some r) = known r
  price_of per_token none = unknown

  pub resolve : List (ModelPrice F) → ProviderType → String → String → Price F
  resolve entries ptype provider model =
      price_of (billing ptype) (entered (get entries provider model))
