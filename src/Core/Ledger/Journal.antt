-- ===== src/Core/Ledger/Journal.antt =====
-- The journal of tickets in ledger.rs as a map from ids to tickets.
use mathlib.Core.Path.{fun_ext}
use role_n.Prelude.{
  ℕ, String, ◌≡◌, refl, ◌∙◌, ap, true, false, Option, none, some, List, [], ◌∷◌, ◌++◌,
  if◌then◌else◌, ◌==◌, ==_iff, string_eq, any, find, arith,
}
use role_n.Core.Types.{
  WriteOp, create, patch, replace, delete, rename, TicketState, queued, applied, rejected,
  WriteTicket,
}
use role_n.Core.Ledger.{
  Chrono, TicketRow, op_text, op_of, state_text, state_of, ticket_row, ticket_of, insert_ticket,
  set_ticket_state,
}

-- What the queue does to the journal.
pub data JournalOp : Type 0 where
  submit : WriteTicket → JournalOp
  settle : String → TicketState → JournalOp

-- The documented round trip of a time.
abbrev pub ReadsBack : Chrono → Type 0
ReadsBack chrono = (t : ℕ) → chrono.read (chrono.print t) ≡ some t

abbrev TicketMap : Type 0
TicketMap = String → Option WriteTicket

abbrev pub settled : TicketState → Option WriteTicket → Option WriteTicket
settled state none = none
settled state (some t) = some (record t { state = state })

abbrev or_new : Option WriteTicket → WriteTicket → Option WriteTicket
or_new none t = some t
or_new (some old) t = some old

-- The same operations on a map: the first ticket of an id stays, and only its state changes.
pub replay : List JournalOp → TicketMap → TicketMap
replay [] f = f
replay (submit t ∷ ops) f = replay ops (λ id. if t.id == id then or_new (f id) t else f id)
replay (settle k state ∷ ops) f = replay ops (λ id. if k == id then settled state (f id) else f id)

op_of-op_text : (op : WriteOp) → op_of (op_text op) ≡ op
op_of-op_text create = refl
op_of-op_text patch = refl
op_of-op_text replace = refl
op_of-op_text delete = refl
op_of-op_text rename = refl

pub state_of-state_text : (s : TicketState) → state_of (state_text s) ≡ s
state_of-state_text queued = refl
state_of-state_text applied = refl
state_of-state_text rejected = refl

module _ (chrono : Chrono) where
  unfoldable pub run : List JournalOp → List TicketRow → List TicketRow
  unfolding insert_ticket set_ticket_state
  run [] rows = rows
  run (submit t ∷ ops) rows = run ops (insert_ticket chrono t rows)
  run (settle id state ∷ ops) rows = run ops (set_ticket_state id state rows)

  abbrev as_ticket : Option TicketRow → Option WriteTicket
  as_ticket none = none
  as_ticket (some row) = some (ticket_of chrono row)

  unfoldable pub ticket_at : List TicketRow → TicketMap
  ticket_at rows id = as_ticket (find (λ (row : TicketRow). row.id == id) rows)

  -- A ticket is read back as it was stored.
  pub ticket_of-ticket_row :
      ReadsBack chrono → (t : WriteTicket) → ticket_of chrono (ticket_row chrono t) ≡ t
  ticket_of-ticket_row back t =
      ground (arith, back t.ts, op_of-op_text t.op, state_of-state_text t.state)

  ticket_at-append :
      (rows : List TicketRow) (new : TicketRow) (id : String)
      → ticket_at (rows ++ new ∷ []) id ≡ (elim (ticket_at rows id) [
        | none ↦ (if new.id == id then some (ticket_of chrono new) else none)
        | some t ↦ some t
      ])
  unfolding ticket_at
  ticket_at-append [] new id = ground arith
  ticket_at-append (row ∷ rows) new id = ground (arith, ticket_at-append rows new id)

  known-any :
      (rows : List TicketRow) (id : String)
      → (elim (ticket_at rows id) [ none ↦ false | some _ ↦ true ])
        ≡ any (λ (row : TicketRow). row.id == id) rows
  unfolding ticket_at
  known-any [] id = refl
  known-any (row ∷ rows) id = ground (arith, known-any rows id)

  ticket_at-insert_ticket :
      ReadsBack chrono
      → (t : WriteTicket) (rows : List TicketRow) (id : String)
      → ticket_at (insert_ticket chrono t rows) id
        ≡ (if t.id == id then or_new (ticket_at rows id) t else ticket_at rows id)
  unfolding insert_ticket
  ticket_at-insert_ticket back t rows id = ground (
    arith,
    ==_iff t.id id,
    known-any rows t.id,
    ticket_at-append rows (ticket_row chrono t) id,
    ticket_of-ticket_row back t,
  )

  ticket_at-set_ticket_state :
      (k : String) (state : TicketState) (rows : List TicketRow) (id : String)
      → ticket_at (set_ticket_state k state rows) id
        ≡ (if k == id then settled state (ticket_at rows id) else ticket_at rows id)
  unfolding set_ticket_state ticket_at
  ticket_at-set_ticket_state k state [] id = ground arith
  ticket_at-set_ticket_state k state (row ∷ rows) id = ground (
    arith,
    ==_iff k id,
    ==_iff row.id k,
    ==_iff row.id id,
    state_of-state_text state,
    ticket_at-set_ticket_state k state rows id,
  )

  run-replay :
      ReadsBack chrono
      → (ops : List JournalOp) (rows : List TicketRow)
      → ticket_at (run ops rows) ≡ replay ops (ticket_at rows)
  unfolding run replay
  run-replay back [] rows = refl
  run-replay back (submit t ∷ ops) rows =
      run-replay back ops (insert_ticket chrono t rows)
      ∙ ap (replay ops) (fun_ext (ticket_at-insert_ticket back t rows))
  run-replay back (settle k state ∷ ops) rows =
      run-replay back ops (set_ticket_state k state rows)
      ∙ ap (replay ops) (fun_ext (ticket_at-set_ticket_state k state rows))

  -- The journal refines a map from ids to tickets: after any submissions and verdicts, in any order
  -- and with any ids, the row of an id, read back, is the first ticket submitted under that id with
  -- the state of the last verdict since; no other field has changed. It is supposed that a printed
  -- time is read back.
  pub journal_refines :
      ReadsBack chrono → (ops : List JournalOp) → ticket_at (run ops []) ≡ replay ops (λ id. none)
  unfolding ticket_at
  journal_refines back ops = run-replay back ops []
