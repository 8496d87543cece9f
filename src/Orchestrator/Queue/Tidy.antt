-- ===== src/Orchestrator/Queue/Tidy.antt =====
-- What holds of the dispatcher of queue.rs between two messages.
use role_n.Prelude.{
  ℕ, String, ◌≡◌, refl, ◌⊎◌, inl, inr, false, Option, none, some, List, [], ◌∷◌, ◌++◌,
  if◌then◌else◌, contains, string_eq, ◌==◌, ==_iff, ==_refl, arith,
}
use role_n.Prelude.Dict.{
  lookup, remove, lookup-insert, lookup-remove, contains-add, contains-discard,
}
use role_n.Orchestrator.Queue.{
  Job, Msg, new, read, done, shutdown, Dispatcher, or_default, handle, dispatcher_loop, push_back,
  release, next_write, empty,
}

-- The messages before the first `Shutdown`.
abbrev pub heard : List Msg → List Msg
heard [] = []
heard (shutdown ∷ msgs) = []
heard (msg ∷ msgs) = msg ∷ heard msgs

abbrev pub backlog : String → Dispatcher → List Job
backlog p d = or_default (lookup p d.inbox)

abbrev pub readers : String → Dispatcher → List ℕ
readers p d = or_default (lookup p d.pending_reads)

-- An idle path has neither a backlog nor waiting readers.
pub record IsTidy (d : Dispatcher) : Type 0 where
  pub no_backlog : (p : String) → contains d.inflight p ≡ false → lookup p d.inbox ≡ none
  pub no_readers : (p : String) → contains d.inflight p ≡ false → lookup p d.pending_reads ≡ none

pub push_back-lookup {ℓ} :
    {A : Type ℓ} (k j : String) (x : A) (m : List (String × List A))
    → lookup j (push_back k x m)
      ≡ (if k == j then some (or_default (lookup k m) ++ x ∷ []) else lookup j m)
unfolding push_back
push_back-lookup k j x m = lookup-insert k j _ m

-- What `release` needs: the other paths are tidy already, and the path itself has no backlog.
release-IsTidy :
    (d : Dispatcher) (path : String)
    → ((p : String)
        → (path == p) ≡ false
        → contains d.inflight p ≡ false
        → (lookup p d.inbox ≡ none) × (lookup p d.pending_reads ≡ none))
    → lookup path d.inbox ≡ none
    → IsTidy (release d path).0
unfolding release
release-IsTidy d path t e = record {
  no_backlog = λ p h. ground (arith, t p, contains-discard path p d.inflight, ==_iff path p);
  no_readers = λ p h. ground (
    arith,
    t p,
    contains-discard path p d.inflight,
    lookup-remove path p d.pending_reads,
    ==_iff path p,
  );
}

next_write-IsTidy :
    (d : Dispatcher) (path : String) (o : Option (List Job))
    → lookup path d.inbox ≡ o
    → IsTidy d
    → IsTidy (next_write d path o).0
unfolding next_write
next_write-IsTidy d path none e t =
    release-IsTidy d path (λ p _ h. (t.no_backlog p h, t.no_readers p h)) e
next_write-IsTidy d path (some []) e t =
    release-IsTidy (record d { inbox = remove path d.inbox }) path
      (λ p ne h. (ground (arith, t.no_backlog p, lookup-remove path p d.inbox), t.no_readers p h))
      (ground (arith, lookup-remove path path d.inbox, ==_refl path))
next_write-IsTidy d path (some (job ∷ rest)) e t = record {
  no_backlog =
      λ p h. ground (arith, t.no_backlog p, lookup-insert path p rest d.inbox, ==_iff path p);
  no_readers = t.no_readers;
}

pub handle-IsTidy : (d : Dispatcher) (msg : Msg) → IsTidy d → IsTidy (handle d msg).0
unfolding handle
handle-IsTidy d (new ticket rtx) t = record {
  no_backlog = λ p h. ground (
    arith,
    t.no_backlog p,
    push_back-lookup ticket.path p (record { ticket = ticket; respond = rtx }) d.inbox,
    ==_iff ticket.path p,
    contains-add ticket.path p d.inflight,
  );
  no_readers = λ p h. ground (arith, t.no_readers p, contains-add ticket.path p d.inflight);
}
handle-IsTidy d (read path respond) t = record {
  no_backlog = λ p h. ground (arith, t.no_backlog p);
  no_readers = λ p h. ground (
    arith,
    t.no_readers p,
    t.no_backlog p,
    push_back-lookup path p respond d.pending_reads,
    ==_iff path p,
  );
}
handle-IsTidy d (done path state respond) t = next_write-IsTidy d path (lookup path d.inbox) refl t
handle-IsTidy d shutdown t = t

pub IsTidy-empty : IsTidy empty
unfolding lookup
IsTidy-empty = record { no_backlog = λ p _. refl; no_readers = λ p _. refl }

pub heard-cons :
    (d : Dispatcher) (msg : Msg) (msgs : List Msg)
    → (heard (msg ∷ msgs) ≡ []) × (dispatcher_loop d (msg ∷ msgs) ≡ (d, []))
      ⊎ (heard (msg ∷ msgs) ≡ msg ∷ heard msgs)
        × (dispatcher_loop d (msg ∷ msgs) ≡ (
          (dispatcher_loop (handle d msg).0 msgs).0,
          (handle d msg).1 ++ (dispatcher_loop (handle d msg).0 msgs).1,
        ))
unfolding dispatcher_loop
heard-cons d shutdown msgs = inl (refl, refl)
heard-cons d _ msgs = inr (refl, refl)
