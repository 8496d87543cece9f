-- ===== src/Orchestrator/Queue/Serial.antt =====
-- The single-writer guarantee of queue.rs, and that no wait is forgotten.
use role_n.Prelude.{
  ℕ, ◌+◌, ◌≤◌, String, ◌≡◌, refl, ap, Bool, true, Option, none, some, List, [], ◌∷◌, map, contains,
  string_eq, ◌==◌, ==_iff, ==_refl, tally, tally-append, arith,
}
use role_n.Prelude.Dict.{lookup, contains-add, contains-discard}
use role_n.Orchestrator.Queue.{
  Job, Msg, new, read, done, shutdown, Dispatcher, fulfill_read, handle, release, next_write,
}
use role_n.Orchestrator.Queue.Tidy.{readers, IsTidy, IsTidy-empty, handle-IsTidy}
use role_n.Orchestrator.Queue.System.{
  System, start, spawned, Step, submit, ask, stop, finish, crash, receive, Reach, here, next, bit,
  runs, reports, appliers, completions, crashes,
}

-- A path in flight has one applier, one completion on its way or one crash; any other has none.
pub record IsSerial (s : System) : Type 0 where
  pub tidy : IsTidy s.dispatcher
  pub one :
      (p : String)
      → appliers p s + completions p s + crashes p s ≡ bit (contains s.dispatcher.inflight p)

spawned-map : (path : String) (rs : List ℕ) → spawned (map (fulfill_read path) rs) ≡ []
spawned-map path [] = refl
spawned-map path (r ∷ rs) = spawned-map path rs

module _ (p : String) (d : Dispatcher) (path : String) where
  spawned-next_write :
      (o : Option (List Job))
      → contains d.inflight path ≡ true
      → tally (runs p) (spawned (next_write d path o).1) + bit (contains d.inflight p)
        ≡ bit (contains (next_write d path o).0.inflight p) + bit (path == p)
  unfolding next_write release
  spawned-next_write none h =
      rw (spawned-map path (readers path d))
        (ground (arith, ==_iff path p, contains-discard path p d.inflight))
  spawned-next_write (some []) h =
      rw (spawned-map path (readers path d))
        (ground (arith, ==_iff path p, contains-discard path p d.inflight))
  spawned-next_write (some (job ∷ rest)) h = ground (arith, ==_iff path p)

-- A round spawns an applier for each path that comes into flight or stays there after a completion.
spawned-handle :
    (p : String) (d : Dispatcher) (msg : Msg)
    → ((q : String) → reports q msg ≤ bit (contains d.inflight q))
    → tally (runs p) (spawned (handle d msg).1) + bit (contains d.inflight p)
      ≡ bit (contains (handle d msg).0.inflight p) + reports p msg
unfolding handle
spawned-handle p d (new ticket rtx) h =
    ground (arith, ==_iff ticket.path p, contains-add ticket.path p d.inflight)
spawned-handle p d (read path respond) h = ground arith
spawned-handle p d (done path state respond) h =
    spawned-next_write p d path (lookup path d.inbox) (ground (arith, h path, ==_refl path))
spawned-handle p d shutdown h = omega arith

IsSerial-start : IsSerial start
IsSerial-start = record { tidy = IsTidy-empty; one = λ p. refl }

reports-le :
    (s : System) (msg : Msg) (rest : List Msg)
    → IsSerial s
    → s.channel ≡ msg ∷ rest
    → (q : String) → reports q msg ≤ bit (contains s.dispatcher.inflight q)
reports-le s msg rest h e q =
    let c : completions q s ≡ reports q msg + tally (reports q) rest = ap (tally (reports q)) e in
    omega (arith, h.one q)

Step-IsSerial : {s t : System} → Step s t → IsSerial s → IsSerial t
Step-IsSerial {s} (submit ticket rtx) h = record {
  tidy = h.tidy;
  one = λ p. omega (arith, h.one p, tally-append (reports p) s.channel (new ticket rtx ∷ []));
}
Step-IsSerial {s} (ask path rtx) h = record {
  tidy = h.tidy;
  one = λ p. omega (arith, h.one p, tally-append (reports p) s.channel (read path rtx ∷ []));
}
Step-IsSerial {s} stop h = record {
  tidy = h.tidy;
  one = λ p. omega (arith, h.one p, tally-append (reports p) s.channel (shutdown ∷ []));
}
Step-IsSerial {s} (finish before after path job state e) h = record {
  tidy = h.tidy;
  one = λ p. omega (
    arith,
    h.one p,
    ap (tally (runs p)) e,
    tally-append (runs p) before ((path, job) ∷ after),
    tally-append (runs p) before after,
    tally-append (reports p) s.channel (done path state job.respond ∷ []),
  );
}
Step-IsSerial {s} (crash before after path job e) h = record {
  tidy = h.tidy;
  one = λ p. omega (
    arith,
    h.one p,
    ap (tally (runs p)) e,
    tally-append (runs p) before ((path, job) ∷ after),
    tally-append (runs p) before after,
  );
}
Step-IsSerial {s} (receive msg rest live e) h = record {
  tidy = handle-IsTidy s.dispatcher msg h.tidy;
  one = λ p. omega (
    arith,
    h.one p,
    ap (tally (reports p)) e,
    tally-append (runs p) s.running (spawned (handle s.dispatcher msg).1),
    spawned-handle p s.dispatcher msg (reports-le s msg rest h e),
  );
}

pub Reach-IsSerial : {s : System} → Reach start s → IsSerial s
Reach-IsSerial here = IsSerial-start
Reach-IsSerial (next r st) = Step-IsSerial st (Reach-IsSerial r)

bit-le : (b : Bool) → bit b ≤ 1
bit-le b = ground arith

-- In every reachable state, whatever the agents send and in whatever order appliers finish, at most
-- one applier is at work on any one path.
pub single_writer : {s : System} (p : String) → Reach start s → appliers p s ≤ 1
single_writer {s} p r =
    omega (arith, (Reach-IsSerial r).one p, bit-le (contains s.dispatcher.inflight p))
