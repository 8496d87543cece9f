-- ===== src/Core/Ledger.antt =====
-- rolen-core/src/ledger.rs: the tables of the SQLite ledger as lists of rows in the order of their
-- row numbers, and the statements as functions on them. A time is stored as text: what chrono prints
-- and reads, and how SQLite orders two texts, is a parameter. This file has the journal of tickets;
-- the children have the usage of tokens, the sessions and the schema.
pub mod Journal
pub mod Counts
pub mod Usage
pub mod Shares
pub mod Entries
pub mod Sessions
pub mod Schema
mod Tests
use role_n.Prelude.{
  ℕ, ◌+◌, String, Bool, true, false, ◌||◌, Option, none, some, List, [], ◌∷◌, ◌++◌, map,
  if◌then◌else◌, ◌==◌, string_eq, any, filter, length,
}
use role_n.Core.Types.{
  Text, WriteOp, create, patch, replace, delete, rename, TicketState, queued, applied, rejected,
  WriteTicket,
}

pub record Chrono : Type 0 where
  -- `to_rfc3339`
  pub print : ℕ → Text
  -- `parse_from_rfc3339`
  pub read : Text → Option ℕ
  -- `Utc::now`
  pub now : ℕ
  -- `<=` on two columns of texts
  pub text_le : Text → Text → Bool

pub record TicketRow : Type 0 where
  pub id : String
  pub task_id : String
  pub path : String
  pub op : String
  pub payload : Text
  pub base_hash : Option String
  pub state : String
  pub ts : Text

-- `format!("{:?}", op).to_lowercase()`
abbrev pub op_text : WriteOp → String
op_text create = "create"
op_text patch = "patch"
op_text replace = "replace"
op_text delete = "delete"
op_text rename = "rename"

abbrev pub op_of : String → WriteOp
op_of s =
    if s == "create"
    then create
    else (if s == "patch"
        then patch
        else (if s == "delete" then delete else (if s == "rename" then rename else replace)))

abbrev pub state_text : TicketState → String
state_text queued = "queued"
state_text applied = "applied"
state_text rejected = "rejected"

abbrev pub state_of : String → TicketState
state_of s = if s == "applied" then applied else (if s == "rejected" then rejected else queued)

-- `ORDER BY` a column of texts, rows of the same text by their row number.
module _ {A : Type 0} (before : A → A → Bool) where
  pub insert_row : A → List A → List A
  insert_row a [] = a ∷ []
  insert_row a (b ∷ rows) =
      let rest = insert_row a rows in if before a b then a ∷ b ∷ rows else b ∷ rest

  pub order_by : List A → List A
  unfolding insert_row
  order_by [] = []
  order_by (a ∷ rows) = insert_row a (order_by rows)

module _ (chrono : Chrono) where
  -- `unwrap_or_else(|_| Utc::now())`
  abbrev pub time_of : Text → ℕ
  time_of s = elim (chrono.read s) [ none ↦ chrono.now | some t ↦ t ]

  abbrev pub ticket_row : WriteTicket → TicketRow
  ticket_row t = record {
    id = t.id;
    task_id = t.task_id;
    path = t.path;
    op = op_text t.op;
    payload = t.payload;
    base_hash = t.base_hash;
    state = state_text t.state;
    ts = chrono.print t.ts;
  }

  abbrev pub ticket_of : TicketRow → WriteTicket
  ticket_of row = record {
    id = row.id;
    task_id = row.task_id;
    path = row.path;
    op = op_of row.op;
    payload = row.payload;
    base_hash = row.base_hash;
    state = state_of row.state;
    ts = time_of row.ts;
  }

  -- `ON CONFLICT(id) DO NOTHING`
  unfoldable pub insert_ticket : WriteTicket → List TicketRow → List TicketRow
  insert_ticket t rows =
      if any (λ (row : TicketRow). row.id == t.id) rows then rows else rows ++ ticket_row t ∷ []

  pub all_tickets : List TicketRow → List WriteTicket
  unfolding order_by
  all_tickets rows = map ticket_of (order_by (λ (a b : TicketRow). chrono.text_le a.ts b.ts) rows)

  abbrev pub recent : Text → List TicketRow → List TicketRow
  recent since rows = filter (λ row. chrono.text_le since row.ts) rows

abbrev pub with_state : String → String → TicketRow → TicketRow
with_state id state row = if row.id == id then record row { state = state } else row

unfoldable pub set_ticket_state : String → TicketState → List TicketRow → List TicketRow
set_ticket_state id state rows = map (with_state id (state_text state)) rows

abbrev pub has_state : String → TicketRow → Bool
has_state s row = row.state == s

pub queued_ticket_count : List TicketRow → ℕ
queued_ticket_count rows = length (filter (has_state "queued") rows)

-- `GROUP BY state`, with `COUNT(*)`. The order of the groups matters only for states that the code
-- never writes.
pub bump : String → List (String × ℕ) → List (String × ℕ)
bump s [] = (s, 1) ∷ []
bump s ((t, n) ∷ groups) =
    let rest = bump s groups in if t == s then (t, n + 1) ∷ groups else (t, n) ∷ rest

pub group_by_state : List TicketRow → List (String × ℕ)
unfolding bump
group_by_state [] = []
group_by_state (row ∷ rows) = bump row.state (group_by_state rows)

pub record TicketCounts : Type 0 where
  pub applied : ℕ
  pub rejected : ℕ
  pub queued : ℕ

-- The loop over the groups, each assigning its counter.
pub assign_counts : List (String × ℕ) → TicketCounts → TicketCounts
assign_counts [] counts = counts
assign_counts ((s, n) ∷ groups) counts = assign_counts groups (
    if s == "applied"
    then record counts { applied = n }
    else (if s == "rejected" then record counts { rejected = n } else record counts { queued = n }))

unfoldable pub ticket_counts_since : Chrono → Text → List TicketRow → TicketCounts
unfolding group_by_state assign_counts
ticket_counts_since chrono since rows =
    assign_counts (group_by_state (recent chrono since rows))
      (record { applied = 0; rejected = 0; queued = 0 })
