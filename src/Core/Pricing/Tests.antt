-- ===== src/Core/Pricing/Tests.antt =====
-- A price list with one entry, in pricing.rs.
use role_n.Prelude.{ℕ, ◌≡◌, refl, none, List, [], ◌∷◌, string_eq}
use role_n.Core.Pricing.{api, Rates, ModelPrice, priced, set, resolve, known}

abbrev flat : ℕ → Rates ℕ
flat rate = record {
  input = rate;
  output = rate;
  cache_read = none;
  cache_write_5m = none;
  cache_write_1h = none;
}

abbrev prices : List (ModelPrice ℕ)
prices = priced "kimi" "k2" (flat 1) ∷ []

overwritten : resolve (set "kimi" "k2" (flat 2) prices) api "kimi" "k2" ≡ known (flat 2)
unfolding resolve set
overwritten = refl
