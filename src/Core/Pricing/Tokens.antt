-- ===== src/Core/Pricing/Tokens.antt =====
-- The tokens that `cost` of pricing.rs bills.
use role_n.Prelude.{◌+◌, ◌≤◌, ◌≡◌, arith}
use role_n.Core.Pricing.{TokenCounts, billed}

-- All prompt tokens are billed; and none twice, if the cache counts are parts of the input as they
-- are meant to be.
pub billed_total :
    (t : TokenCounts)
    → (t.input ≤ (billed t).0 + (billed t).1 + (billed t).2 + (billed t).3)
      × (t.cache_read + t.cache_write_5m + t.cache_write_1h ≤ t.input
          → (billed t).0 + (billed t).1 + (billed t).2 + (billed t).3 ≡ t.input)
billed_total t = (omega arith, λ l. omega arith)
