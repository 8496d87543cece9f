-- ===== src/Orchestrator/Queue.antt =====
-- The dispatcher thread of rolen-orchestrator/src/queue.rs: the inbox of waiting tickets, the paths
-- in flight and the readers that wait for a path. A reply channel is a number; what the thread does
-- to others (spawn an applier, read a file, answer) is a list of effects, in order.
pub mod Tidy
pub mod Fifo
pub mod System
pub mod Serial
pub mod Reads
pub mod Wedge
mod Tests
use role_n.Prelude.{
  ℕ, String, Bool, false, true, ◌||◌, Option, none, some, List, [], ◌∷◌, ◌++◌, map, if◌then◌else◌,
  contains, string_eq,
}
use role_n.Prelude.Dict.{lookup, insert, remove, add, discard}
use role_n.Core.Types.{WriteTicket, TicketState}

pub record Job : Type 0 where
  pub ticket : WriteTicket
  pub respond : ℕ

pub data Msg : Type 0 where
  new : WriteTicket → ℕ → Msg
  read : String → ℕ → Msg
  done : String → TicketState → ℕ → Msg
  shutdown : Msg

pub record Dispatcher : Type 0 where
  pub inbox : List (String × List Job)
  pub inflight : List String
  pub pending_reads : List (String × List ℕ)

pub data Effect : Type 0 where
  dispatch : String → Job → Effect
  fulfill_read : String → ℕ → Effect
  send : ℕ → TicketState → Effect

abbrev pub or_default {ℓ} : {A : Type ℓ} → Option (List A) → List A
or_default none = []
or_default (some xs) = xs

abbrev is_some {ℓ} : {A : Type ℓ} → Option A → Bool
is_some none = false
is_some (some _) = true

-- `entry(path).or_default().push(x)`
pub push_back {ℓ} : {A : Type ℓ} → String → A → List (String × List A) → List (String × List A)
push_back path x m = insert path (or_default (lookup path m) ++ x ∷ []) m

abbrev pub empty : Dispatcher
empty = record { inbox = []; inflight = []; pending_reads = [] }

on_new : Dispatcher → WriteTicket → ℕ → Dispatcher × List Effect
on_new d ticket rtx =
    let job : Job = record { ticket = ticket; respond = rtx } in
    if contains d.inflight ticket.path
    then (record d { inbox = push_back ticket.path job d.inbox }, [])
    else (record d { inflight = add ticket.path d.inflight }, dispatch ticket.path job ∷ [])

on_read : Dispatcher → String → ℕ → Dispatcher × List Effect
on_read d path respond =
    if contains d.inflight path || is_some (lookup path d.inbox)
    then (record d { pending_reads = push_back path respond d.pending_reads }, [])
    else (d, fulfill_read path respond ∷ [])

-- the end of `Done`, when no further write of the path is waiting
release : Dispatcher → String → Dispatcher × List Effect
release d path = (
  record d { inflight = discard path d.inflight; pending_reads = remove path d.pending_reads },
  map (fulfill_read path) (or_default (lookup path d.pending_reads)),
)

-- `inbox.get_mut(&path)` and `pop_front`
next_write : Dispatcher → String → Option (List Job) → Dispatcher × List Effect
next_write d path none = release d path
next_write d path (some []) = release (record d { inbox = remove path d.inbox }) path
next_write d path (some (job ∷ rest)) =
    (record d { inbox = insert path rest d.inbox }, dispatch path job ∷ [])

on_done : Dispatcher → String → TicketState → ℕ → Dispatcher × List Effect
on_done d path state respond =
    let (d', effects) = next_write d path (lookup path d.inbox) in
    (d', send respond state ∷ effects)

-- One round of the loop on a message that does not end it.
pub handle : Dispatcher → Msg → Dispatcher × List Effect
unfolding on_new on_read on_done next_write release push_back
handle d (new ticket rtx) = on_new d ticket rtx
handle d (read path respond) = on_read d path respond
handle d (done path state respond) = on_done d path state respond
handle d shutdown = (d, [])

-- The loop over the messages in the order of the channel; an empty list is a blocked `recv`.
pub dispatcher_loop : Dispatcher → List Msg → Dispatcher × List Effect
dispatcher_loop d [] = (d, [])
dispatcher_loop d (shutdown ∷ msgs) = (d, [])
dispatcher_loop d (msg ∷ msgs) =
    let (d', effects) = handle d msg in
    let (d'', more) = dispatcher_loop d' msgs in (d'', effects ++ more)
