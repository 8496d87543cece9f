-- ===== src/Core/Types.antt =====
-- The domain types of rolen-core/src/types.rs that the components share.
use role_n.Prelude.{ℕ, String, Option, List}

-- The characters of a file or of a diff, by number.
abbrev pub Text : Type 0
Text = List ℕ

pub data WriteOp : Type 0 where
  create patch replace delete rename : WriteOp

pub data TicketState : Type 0 where
  queued applied rejected : TicketState

pub record WriteTicket : Type 0 where
  pub id : String
  pub task_id : String
  pub path : String
  pub op : WriteOp
  pub payload : Text
  pub base_hash : Option String
  pub state : TicketState
  pub ts : ℕ
