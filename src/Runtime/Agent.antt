-- ===== src/Runtime/Agent.antt =====
-- Two parts of the agent loop of rolen-runtime/src/agent.rs: the call of the model with its retries
-- and migrations, and the compaction of the history. What a provider answers, where routing migrates
-- to and what the model summarizes are parameters.
pub mod Calls
pub mod Compact
mod Tests
use role_n.Prelude.{
  ℕ, zero, suc, ◌+◌, ◌-◌, ◌*◌, ◌/◌, ◌≤◌, ◌<◌, String, Bool, true, false, not, ◌&&◌, ◌||◌, Option,
  none, some, List, [], ◌∷◌, ◌++◌, if◌then◌else◌, ltb, leb, eqb, length, take, drop, tally,
}
use role_n.Core.Types.{Text}

pub data Reply : Type 0 where
  answered retryable fatal : Reply

-- The provider and the model of the session, and the migrations it has made.
pub record Session : Type 0 where
  pub provider_id : String
  pub model : String
  pub migrations : ℕ

-- The end of the call, with the number of requests that were sent; and no fuel.
pub data Called : Type 0 where
  responded failed : Session → ℕ → Called
  no_fuel : Called

migrate_to : (ℕ → Session → Called) → Session → ℕ → Option (String × String) → Called
migrate_to again s calls none = failed s calls
migrate_to again s calls (some (provider, model)) =
    again 0 (record s { provider_id = provider; model = model })

-- `again` is the next round, with the attempts at the provider so far.
on_retryable :
    (ℕ → Session → Called) → (String → Option (String × String)) → Bool → ℕ → ℕ → Session → Called
unfolding migrate_to
on_retryable again migrate has_override calls attempt s =
    if ltb attempt 3
    then again (attempt + 1) s
    else if ltb s.migrations 2 && not has_override
    then migrate_to again (record s { migrations = s.migrations + 1 }) calls (migrate s.provider_id)
    else failed s calls

on_reply :
    (ℕ → Session → Called)
    → (String → Option (String × String))
    → Bool
    → ℕ
    → ℕ
    → Session
    → Reply
    → Called
unfolding on_retryable
on_reply again migrate has_override calls attempt s answered = responded s calls
on_reply again migrate has_override calls attempt s fatal = failed s calls
on_reply again migrate has_override calls attempt s retryable =
    on_retryable again migrate has_override calls attempt s

-- `chat n` answers the request `n` of this call, `migrate n` routes anew after it.
module _ (chat : ℕ → String → String → Reply) (migrate : ℕ → String → Option (String × String))
    (has_override : Bool) where
  pub call_loop : ℕ → ℕ → ℕ → Session → Called
  unfolding on_reply
  call_loop zero calls attempt s = no_fuel
  call_loop (suc fuel) calls attempt s =
      on_reply (call_loop fuel (calls + 1)) (migrate calls) has_override (calls + 1) attempt s
        (chat calls s.provider_id s.model)

-- The messages of a history, texts by their bytes; a tool call by its arguments as text.
pub data HistMsg : Type 0 where
  system user : Text → HistMsg
  assistant : Text → List Text → HistMsg
  tool_results : List Text → HistMsg

abbrev pub weight : HistMsg → ℕ
weight (system s) = length s
weight (user s) = length s
weight (assistant text tool_calls) = length text + tally (λ args. length args + 32) tool_calls
weight (tool_results results) = tally (λ content. length content + 16) results

pub estimate : List HistMsg → ℕ
estimate history = tally weight history / 4

-- What `maybe_compact` leaves, and the number of messages that it dropped; or a panic of `split_off`
-- or of the subtraction.
pub data Compaction : Type 0 where
  unchanged : Compaction
  compacted : List HistMsg → ℕ → Compaction
  panics : Compaction

module _ (summarize : List HistMsg → Option Text) (note : ℕ → Option Text → Text) where
  compact : List HistMsg → Compaction
  compact history =
      let drop_count = length history - 2 - 6 in
      if ltb (length history) 8
      then panics
      else if eqb drop_count 0
      then unchanged
      else let tail = drop (length history - 6) history in
        let rest = take (length history - 6) history in
        let dropped = drop 2 rest in
        compacted (take 2 rest ++ system (note drop_count (summarize dropped)) ∷ tail) drop_count

  pub maybe_compact : ℕ → List HistMsg → Compaction
  unfolding compact estimate
  maybe_compact compact_at_tokens history =
      if ltb (estimate history) compact_at_tokens || leb (length history) 4
      then unchanged
      else compact history
