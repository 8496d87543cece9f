-- ===== src/Orchestrator/Queue/Fifo.antt =====
-- Order and completeness of what the dispatcher of queue.rs hands out, path by path.
use role_n.Prelude.{
  ℕ, String, ◌≡◌, refl, sym, ◌∙◌, inl, inr, Option, none, some, List, [], ◌∷◌, ◌++◌, map,
  append-nil, append_assoc, if◌then◌else◌, string_eq, ◌==◌, ==_iff, flat_map, flat_map-append,
  arith,
}
use role_n.Prelude.Dict.{lookup, lookup-insert, lookup-remove}
use role_n.Orchestrator.Queue.{
  Job, Msg, new, read, done, shutdown, Dispatcher, Effect, dispatch, fulfill_read, handle,
  dispatcher_loop, release, next_write, empty,
}
use role_n.Orchestrator.Queue.Tidy.{
  heard, heard-cons, backlog, readers, IsTidy, IsTidy-empty, push_back-lookup, handle-IsTidy,
}

-- The tickets that a message submits for a path, and those that an effect starts on it.
abbrev submits : String → Msg → List Job
submits p (new ticket rtx) =
    if ticket.path == p then record { ticket = ticket; respond = rtx } ∷ [] else []
submits p _ = []

abbrev starts : String → Effect → List Job
starts p (dispatch path job) = if path == p then job ∷ [] else []
starts p _ = []

-- The same for readers.
abbrev asks : String → Msg → List ℕ
asks p (read path respond) = if path == p then respond ∷ [] else []
asks p _ = []

abbrev answers : String → Effect → List ℕ
answers p (fulfill_read path respond) = if path == p then respond ∷ [] else []
answers p _ = []

abbrev pub submitted : String → List Msg → List Job
submitted p = flat_map (submits p)

abbrev pub dispatched : String → List Effect → List Job
dispatched p = flat_map (starts p)

abbrev pub requested : String → List Msg → List ℕ
requested p = flat_map (asks p)

abbrev pub fulfilled : String → List Effect → List ℕ
fulfilled p = flat_map (answers p)

pub dispatched-map :
    (p path : String) (rs : List ℕ) → dispatched p (map (fulfill_read path) rs) ≡ []
dispatched-map p path [] = refl
dispatched-map p path (r ∷ rs) = dispatched-map p path rs

pub fulfilled-map :
    (p path : String) (rs : List ℕ)
    → fulfilled p (map (fulfill_read path) rs) ≡ (if path == p then rs else [])
fulfilled-map p path [] = ground arith
fulfilled-map p path (r ∷ rs) = ground (arith, fulfilled-map p path rs)

module _ (p : String) (d : Dispatcher) (path : String) where
  dispatched-next_write :
      (o : Option (List Job))
      → lookup path d.inbox ≡ o
      → dispatched p (next_write d path o).1 ++ backlog p (next_write d path o).0 ≡ backlog p d
  unfolding next_write release
  dispatched-next_write none e = rw (dispatched-map p path (readers path d))
  dispatched-next_write (some []) e =
      rw (dispatched-map p path (readers path d))
        (ground (arith, lookup-remove path p d.inbox, ==_iff path p))
  dispatched-next_write (some (job ∷ rest)) e =
      ground (arith, lookup-insert path p rest d.inbox, ==_iff path p)

  fulfilled-next_write :
      (o : Option (List Job))
      → fulfilled p (next_write d path o).1 ++ readers p (next_write d path o).0 ≡ readers p d
  unfolding next_write release
  fulfilled-next_write none = rw (fulfilled-map p path (readers path d)) (
      ground (arith, lookup-remove path p d.pending_reads, ==_iff path p, append-nil (readers p d)))
  fulfilled-next_write (some []) = rw (fulfilled-map p path (readers path d)) (
      ground (arith, lookup-remove path p d.pending_reads, ==_iff path p, append-nil (readers p d)))
  fulfilled-next_write (some (job ∷ rest)) = refl

-- One round hands out, in order, the backlog and what it hears, and keeps the rest.
dispatched-handle :
    (p : String) (d : Dispatcher) (msg : Msg)
    → IsTidy d
    → dispatched p (handle d msg).1 ++ backlog p (handle d msg).0 ≡ backlog p d ++ submits p msg
unfolding handle
dispatched-handle p d (new ticket rtx) t =
    let job : Job = record { ticket = ticket; respond = rtx } in
    ground (
      arith,
      t.no_backlog ticket.path,
      push_back-lookup ticket.path p job d.inbox,
      ==_iff ticket.path p,
      append-nil (backlog p d),
    )
dispatched-handle p d (read path respond) t = ground (arith, append-nil (backlog p d))
dispatched-handle p d (done path state respond) t =
    dispatched-next_write p d path (lookup path d.inbox) refl ∙ sym (append-nil _)
dispatched-handle p d shutdown t = sym (append-nil _)

fulfilled-handle :
    (p : String) (d : Dispatcher) (msg : Msg)
    → IsTidy d
    → fulfilled p (handle d msg).1 ++ readers p (handle d msg).0 ≡ readers p d ++ asks p msg
unfolding handle
fulfilled-handle p d (new ticket rtx) t = ground (arith, append-nil (readers p d))
fulfilled-handle p d (read path respond) t = ground (
  arith,
  t.no_backlog path,
  t.no_readers path,
  push_back-lookup path p respond d.pending_reads,
  ==_iff path p,
  append-nil (readers p d),
)
fulfilled-handle p d (done path state respond) t =
    fulfilled-next_write p d path (lookup path d.inbox) ∙ sym (append-nil _)
fulfilled-handle p d shutdown t = sym (append-nil _)

-- A round at a time: what holds of one message holds of the loop.
module _ {X : Type 0} (out : Effect → List X) (hears : Msg → List X) (held : Dispatcher → List X)
    (one : (d : Dispatcher) (msg : Msg)
      → IsTidy d
      → flat_map out (handle d msg).1 ++ held (handle d msg).0 ≡ held d ++ hears msg) where
  conserved-loop :
      (d : Dispatcher) (msgs : List Msg)
      → IsTidy d
      → flat_map out (dispatcher_loop d msgs).1 ++ held (dispatcher_loop d msgs).0
        ≡ held d ++ flat_map hears (heard msgs)
  unfolding dispatcher_loop
  conserved-loop d [] t = sym (append-nil _)
  conserved-loop d (msg ∷ msgs) t = elim (heard-cons d msg msgs) [
    | inl (h, e) ↦ rw (h, e) (sym (append-nil _))
    | inr (h, e) ↦
        rw (h, e)
          (cc (
            flat_map-append out (handle d msg).1 (dispatcher_loop (handle d msg).0 msgs).1,
            append_assoc (flat_map out (handle d msg).1)
                (flat_map out (dispatcher_loop (handle d msg).0 msgs).1)
                (held (dispatcher_loop (handle d msg).0 msgs).0),
            append_assoc (flat_map out (handle d msg).1) (held (handle d msg).0)
                (flat_map hears (heard msgs)),
            append_assoc (held d) (hears msg) (flat_map hears (heard msgs)),
            one d msg t,
            conserved-loop (handle d msg).0 msgs (handle-IsTidy d msg t),
          ))
  ]

-- For every path and whatever the messages: the tickets started on the path, followed by those that
-- wait in its inbox, are the tickets submitted for it before any shutdown, in the order of
-- submission. So per path no ticket overtakes another, is dropped, or is started twice.
pub per_path_fifo :
    (p : String) (msgs : List Msg)
    → dispatched p (dispatcher_loop empty msgs).1 ++ backlog p (dispatcher_loop empty msgs).0
      ≡ submitted p (heard msgs)
unfolding lookup
per_path_fifo p msgs =
    conserved-loop (starts p) (submits p) (backlog p) (dispatched-handle p) empty msgs IsTidy-empty

-- For every path and whatever the messages: the readers answered, followed by those still waiting,
-- are the readers that asked for the path before any shutdown, in the order of their requests.
pub reads_fifo :
    (p : String) (msgs : List Msg)
    → fulfilled p (dispatcher_loop empty msgs).1 ++ readers p (dispatcher_loop empty msgs).0
      ≡ requested p (heard msgs)
unfolding lookup
reads_fifo p msgs =
    conserved-loop (answers p) (asks p) (readers p) (fulfilled-handle p) empty msgs IsTidy-empty
