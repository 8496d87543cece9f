-- ===== src/Orchestrator/Queue/Tests.antt =====
-- The queue of queue.rs on small inputs, and its theorems there.
use role_n.Prelude.{
  ℕ, ◌≤◌, String, ◌≡◌, refl, ◌≢◌, true, none, List, [], ◌∷◌, ◌++◌, contains, string_eq, arith,
}
use role_n.Prelude.Dict.{lookup, insert, remove, add, discard}
use role_n.Core.Types.{WriteTicket, replace, queued, applied}
use role_n.Orchestrator.Queue.{
  Job, Msg, new, read, done, empty, dispatch, send, handle, dispatcher_loop,
}
use role_n.Orchestrator.Queue.Tidy.{backlog}
use role_n.Orchestrator.Queue.Fifo.{dispatched, fulfilled, per_path_fifo}
use role_n.Orchestrator.Queue.System.{
  System, start, receive_state, submit, ask, receive, crash, Reach, here, next, appliers,
}
use role_n.Orchestrator.Queue.Serial.{single_writer}
use role_n.Orchestrator.Queue.Reads.{reads_see_writes}
use role_n.Orchestrator.Queue.Wedge.{crash_wedges}

abbrev ticket : String → String → WriteTicket
ticket id path = record {
  id = id;
  task_id = "t";
  path = path;
  op = replace;
  payload = [];
  base_hash = none;
  state = queued;
  ts = 0;
}

abbrev job : String → String → ℕ → Job
job id path rtx = record { ticket = ticket id path; respond = rtx }

abbrev script : List Msg
script =
    new (ticket "1" "a") 1
    ∷ new (ticket "2" "a") 2
    ∷ new (ticket "3" "b") 3
    ∷ read "a" 4
    ∷ new (ticket "5" "a") 5
    ∷ done "a" applied 1
    ∷ done "a" applied 2
    ∷ []

program : Unit {0}
unfolding dispatcher_loop handle lookup insert remove add discard
program = tt

effects_of_script :
    (dispatcher_loop empty script).1
    ≡ dispatch "a" (job "1" "a" 1)
      ∷ dispatch "b" (job "3" "b" 3)
      ∷ send 1 applied
      ∷ dispatch "a" (job "2" "a" 2)
      ∷ send 2 applied
      ∷ dispatch "a" (job "5" "a" 5)
      ∷ []
unfolding program
effects_of_script = refl

per_path_fifo_example :
    dispatched "a" (dispatcher_loop empty script).1 ++ backlog "a" (dispatcher_loop empty script).0
    ≡ job "1" "a" 1 ∷ job "2" "a" 2 ∷ job "5" "a" 5 ∷ []
per_path_fifo_example = per_path_fifo "a" script

-- One ticket is at work on a path, and a second has been heard.
abbrev sent : System
sent = record start { channel = new (ticket "1" "a") 1 ∷ new (ticket "2" "a") 2 ∷ [] }

abbrev one_heard : System
one_heard = receive_state sent (new (ticket "1" "a") 1) (new (ticket "2" "a") 2 ∷ [])

abbrev both_heard : System
both_heard = receive_state one_heard (new (ticket "2" "a") 2) []

Reach-sent : Reach start sent
Reach-sent = next (next here (submit (ticket "1" "a") 1)) (submit (ticket "2" "a") 2)

Reach-one : Reach start one_heard
Reach-one =
    next Reach-sent (receive (new (ticket "1" "a") 1) (new (ticket "2" "a") 2 ∷ []) refl refl)

Reach-both : Reach start both_heard
Reach-both = next Reach-one (receive (new (ticket "2" "a") 2) [] refl refl)

single_writer_example : appliers "a" both_heard ≤ 1
single_writer_example = single_writer "a" Reach-both

abbrev asked : System
asked = record start { channel = read "a" 7 ∷ [] }

answered : fulfilled "a" (handle asked.dispatcher (read "a" 7)).1 ≢ []
unfolding program
answered e = cc

reads_see_writes_example :
    (appliers "a" asked ≡ 0) × (backlog "a" (handle asked.dispatcher (read "a" 7)).0 ≡ [])
reads_see_writes_example = reads_see_writes "a" (next here (ask "a" 7)) refl answered

abbrev wedged : System
wedged = record one_heard { running = []; crashed = ("a", job "1" "a" 1) ∷ [] }

Reach-wedged : Reach start wedged
unfolding program
Reach-wedged = next Reach-one (crash [] [] "a" (job "1" "a" 1) refl)

crash_wedges_example :
    (contains wedged.dispatcher.inflight "a" ≡ true)
    × (dispatched "a" (handle wedged.dispatcher (new (ticket "2" "a") 2)).1 ≡ [])
crash_wedges_example = crash_wedges "a" Reach-wedged (omega arith) here refl
