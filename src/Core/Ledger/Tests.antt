-- ===== src/Core/Ledger/Tests.antt =====
-- The ledger on concrete rows.
use role_n.Prelude.{
  ℕ, String, ◌≡◌, refl, Bool, true, Option, none, some, List, [], ◌∷◌, map, leb, tally, ◌+◌,
  string_eq,
}
use role_n.Core.Types.{Text, queued, applied, rejected, create, WriteTicket}
use role_n.Core.Pricing.{TokenCounts}
use role_n.Core.Ledger.{Chrono, TicketCounts, ticket_counts_since}
use role_n.Core.Ledger.Journal.{JournalOp, submit, settle, run, replay, ticket_at, journal_refines}
use role_n.Core.Ledger.Usage.{
  Costs, LedgerEntry, EntryRow, UsageSummary, entry_row, usage_since, total_tokens,
}
use role_n.Core.Ledger.Shares.{tokens_in_of, tokens_out_of, requests_of, usage_since_shares}
use role_n.Core.Ledger.Sessions.{Session, running}

-- A time is one character.
abbrev char_le : Text → Text → Bool
char_le (a ∷ _) (b ∷ _) = leb a b
char_le _ _ = true

abbrev head : Text → Option ℕ
head [] = none
head (t ∷ _) = some t

abbrev clock : Chrono
clock = record { print = λ t. t ∷ []; read = head; now = 0; text_le = char_le }

abbrev cents : Costs ℕ
cents = record { zero = 0; sum = λ a b. a + b; storable = λ _. true }

abbrev ticket : String → ℕ → WriteTicket
ticket id ts = record {
  id = id;
  task_id = "t";
  path = "a.txt";
  op = create;
  payload = [];
  base_hash = none;
  state = queued;
  ts = ts;
}

abbrev day : List JournalOp
day =
    submit (ticket "1" 4)
    ∷ submit (ticket "2" 5)
    ∷ settle "1" applied
    ∷ submit (ticket "1" 9)
    ∷ settle "2" rejected
    ∷ submit (ticket "3" 6)
    ∷ []

journal_refines_example : ticket_at clock (run clock day []) ≡ replay day (λ id. none)
journal_refines_example = journal_refines clock (λ t. refl) day

-- The verdict of ticket 1 stays, and its second submission is dropped.
ticket_1 : ticket_at clock (run clock day []) "1" ≡ some (record (ticket "1" 4) { state = applied })
unfolding ticket_at run
ticket_1 = refl

abbrev one_each : TicketCounts
one_each = record { applied = 1; rejected = 1; queued = 1 }

counts_of_day : ticket_counts_since clock (4 ∷ []) (run clock day []) ≡ one_each
unfolding ticket_counts_since run
counts_of_day = refl

abbrev spent : ℕ → ℕ → TokenCounts
spent i o = record { input = i; cache_read = 0; cache_write_5m = 0; cache_write_1h = 0; output = o }

abbrev call : String → String → ℕ → ℕ → LedgerEntry ℕ
call id p i ts = record {
  id = id;
  session_id = "s";
  provider_id = p;
  usage = spent i 1;
  cost = 2;
  latency_ms = some 7;
  ts = ts;
}

abbrev calls : List (LedgerEntry ℕ)
calls = call "x" "glm" 10 5 ∷ call "y" "kimi" 20 3 ∷ call "z" "glm" 30 4 ∷ []

abbrev rows : List (EntryRow ℕ)
rows = map (entry_row cents clock) calls

abbrev all_calls : UsageSummary ℕ
all_calls = record { tokens_in = 60; tokens_out = 3; cost = 6; requests = 3 }

abbrev used : String → Option (UsageSummary ℕ)
used p = usage_since cents clock (some p) (3 ∷ []) rows

all_calls-found : usage_since cents clock none (3 ∷ []) rows ≡ some all_calls
unfolding usage_since
all_calls-found = refl

usage_since_shares_example :
    (tally (λ p. tokens_in_of (used p)) ("kimi" ∷ "glm" ∷ []) ≡ 60)
    × (tally (λ p. tokens_out_of (used p)) ("kimi" ∷ "glm" ∷ []) ≡ 3)
    × (tally (λ p. requests_of (used p)) ("kimi" ∷ "glm" ∷ []) ≡ 3)
    × (total_tokens all_calls ≡ 63)
usage_since_shares_example =
    usage_since_shares cents clock (3 ∷ []) rows ("kimi" ∷ "glm" ∷ []) all_calls (refl, (refl, tt))
      ((λ _. refl), ((λ _. refl), ((λ _. refl), tt))) all_calls-found

abbrev session : String → ℕ → Session ℕ
session id started = record {
  id = id;
  task_id = none;
  provider_id = "glm";
  model = "m";
  role = "coder";
  state = running;
  tokens_in = 5;
  tokens_out = 6;
  cost = 7;
  started = started;
  transcript_path = none;
}
