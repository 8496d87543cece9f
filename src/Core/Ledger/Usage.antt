-- ===== src/Core/Ledger/Usage.antt =====
-- The usage of tokens in ledger.rs. SQLite keeps integers of 64 bits with a sign, so a count of 2^63
-- or more is refused when it is bound, and a sum that reaches 2^63 is an error. Costs are of any type
-- of numbers, with the sum that SQLite forms and the values that it stores (it stores no NaN).
use role_n.Prelude.{
  ℕ, ◌+◌, ◌^◌, ◌%◌, String, Bool, true, not, ◌&&◌, Option, none, some, List, [], ◌∷◌, ◌++◌, map,
  if◌then◌else◌, ltb, ◌==◌, string_eq, any, filter, length, tally,
}
use role_n.Core.Types.{Text}
use role_n.Core.Text.{codes}
use role_n.Core.Pricing.{TokenCounts}
use role_n.Core.Ledger.{Chrono, time_of, order_by}

pub record Costs (F : Type 0) : Type 0 where
  pub zero : F
  pub sum : F → F → F
  pub storable : F → Bool

pub record LedgerEntry (F : Type 0) : Type 0 where
  pub id : String
  pub session_id : String
  pub provider_id : String
  pub usage : TokenCounts
  pub cost : F
  pub latency_ms : Option ℕ
  pub ts : ℕ

pub record EntryRow (F : Type 0) : Type 0 where
  pub id : String
  pub session_id : String
  pub provider_id : String
  pub tokens_in : ℕ
  pub tokens_cached : ℕ
  pub tokens_cache_write_5m : ℕ
  pub tokens_cache_write_1h : ℕ
  pub tokens_out : ℕ
  pub cost : F
  -- the 64 bits of the signed integer
  pub latency_ms : Option ℕ
  pub ts : Text

pub record UsageSummary (F : Type 0) : Type 0 where
  pub tokens_in : ℕ
  pub tokens_out : ℕ
  pub cost : F
  pub requests : ℕ

abbrev pub fits_i64 : ℕ → Bool
fits_i64 n = ltb n (2 ^ 63)

-- `v as i64`, and back
abbrev bits64 : Option ℕ → Option ℕ
bits64 none = none
bits64 (some v) = some (v % 2 ^ 64)

abbrev pub fits_row : TokenCounts → Bool
fits_row u =
    fits_i64 u.input
    && fits_i64 u.cache_read
    && fits_i64 u.cache_write_5m
    && fits_i64 u.cache_write_1h
    && fits_i64 u.output

-- A sum of integers, which SQLite refuses when it overflows.
abbrev pub checked : ℕ → Option ℕ
checked n = if fits_i64 n then some n else none

module _ {F : Type 0} where
  abbrev pub has_id : String → List (EntryRow F) → Bool
  has_id id rows = any (λ row. row.id == id) rows

  -- `PROVIDER = ?2`, if there is one.
  abbrev pub is_of : Option String → EntryRow F → Bool
  is_of none row = true
  is_of (some p) row = row.provider_id == p

  -- `SELECT COUNT(*)`
  pub count_entries : List (EntryRow F) → ℕ
  count_entries rows = length rows

module _ {F : Type 0} (costs : Costs F) (chrono : Chrono) where
  abbrev pub entry_row : LedgerEntry F → EntryRow F
  entry_row e = record {
    id = e.id;
    session_id = e.session_id;
    provider_id = e.provider_id;
    tokens_in = e.usage.input;
    tokens_cached = e.usage.cache_read;
    tokens_cache_write_5m = e.usage.cache_write_5m;
    tokens_cache_write_1h = e.usage.cache_write_1h;
    tokens_out = e.usage.output;
    cost = e.cost;
    latency_ms = bits64 e.latency_ms;
    ts = chrono.print e.ts;
  }

  abbrev pub entry_of : EntryRow F → LedgerEntry F
  entry_of row = record {
    id = row.id;
    session_id = row.session_id;
    provider_id = row.provider_id;
    usage = record {
      input = row.tokens_in;
      cache_read = row.tokens_cached;
      cache_write_5m = row.tokens_cache_write_5m;
      cache_write_1h = row.tokens_cache_write_1h;
      output = row.tokens_out;
    };
    cost = row.cost;
    latency_ms = row.latency_ms;
    ts = time_of chrono row.ts;
  }

  -- `INSERT`: `none` is an error, and the table is as it was.
  unfoldable pub record_entry : LedgerEntry F → List (EntryRow F) → Option (List (EntryRow F))
  record_entry e rows =
      if fits_row e.usage && costs.storable e.cost && not (has_id e.id rows)
      then some (rows ++ entry_row e ∷ [])
      else none

  unfoldable pub all_entries : List (EntryRow F) → List (LedgerEntry F)
  all_entries rows = map entry_of (order_by (λ (a b : EntryRow F). chrono.text_le a.ts b.ts) rows)

  abbrev pub probe_row : EntryRow F
  probe_row = record {
    id = "__probe__";
    session_id = "__probe__";
    provider_id = "__probe__";
    tokens_in = 0;
    tokens_cached = 0;
    tokens_cache_write_5m = 0;
    tokens_cache_write_1h = 0;
    tokens_out = 0;
    cost = costs.zero;
    latency_ms = none;
    ts = codes "1970-01-01T00:00:00Z";
  }

  -- `INSERT` with `ON CONFLICT DO NOTHING`, then `DELETE`.
  unfoldable pub probe : List (EntryRow F) → List (EntryRow F)
  probe rows =
      filter (λ row. not (row.id == "__probe__"))
        (if has_id "__probe__" rows then rows else rows ++ probe_row ∷ [])

  abbrev pub counted : Option String → Text → List (EntryRow F) → List (EntryRow F)
  counted provider_id since rows =
      filter (λ row. chrono.text_le since row.ts && is_of provider_id row) rows

  pub total_cost : List (EntryRow F) → F
  total_cost [] = costs.zero
  total_cost (row ∷ rows) = costs.sum row.cost (total_cost rows)

  abbrev pub summary_of : Option ℕ → Option ℕ → F → ℕ → Option (UsageSummary F)
  summary_of (some i) (some o) cost n =
      some (record { tokens_in = i; tokens_out = o; cost = cost; requests = n })
  summary_of _ _ cost n = none

  unfoldable pub usage_since : Option String → Text → List (EntryRow F) → Option (UsageSummary F)
  unfolding total_cost
  usage_since provider_id since rows =
      let found = counted provider_id since rows in
      summary_of (checked (tally (λ row. row.tokens_in) found))
        (checked (tally (λ row. row.tokens_out) found)) (total_cost found) (length found)

-- `self.tokens_in + self.tokens_out`, two numbers below 2^63.
unfoldable pub total_tokens : {F : Type 0} → UsageSummary F → ℕ
total_tokens u = (u.tokens_in + u.tokens_out) % 2 ^ 64
