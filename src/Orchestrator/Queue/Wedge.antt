-- ===== src/Orchestrator/Queue/Wedge.antt =====
-- What an applier that panics does to its path (`dispatch` and `Done` of queue.rs).
use role_n.Prelude.{
  ◌+◌, ◌≤◌, ◌<◌, String, ◌≡◌, refl, ap, true, Option, none, some, List, [], ◌∷◌, contains,
  string_eq, ◌==◌, false, ==_iff, tally, arith,
}
use role_n.Orchestrator.Queue.{
  Job, next_write, release, Msg, new, read, done, shutdown, Dispatcher, handle,
}
use role_n.Prelude.Dict.{lookup}
use role_n.Orchestrator.Queue.Fifo.{dispatched, dispatched-map}
use role_n.Orchestrator.Queue.Tidy.{readers}
use role_n.Orchestrator.Queue.System.{
  System, start, Step, submit, ask, stop, finish, crash, receive, Reach, here, next, reports,
  completions, crashes,
}
use role_n.Orchestrator.Queue.Serial.{Reach-IsSerial}

Reach-trans : {s t u : System} → Reach s t → Reach t u → Reach s u
Reach-trans r here = r
Reach-trans r (next q st) = next (Reach-trans r q) st

crashes-Step : {s t : System} (p : String) → Step s t → crashes p s ≤ crashes p t
crashes-Step p (crash before after path job e) = omega arith
crashes-Step p (submit ticket rtx) = omega arith
crashes-Step p (ask path rtx) = omega arith
crashes-Step p stop = omega arith
crashes-Step p (finish before after path job state e) = omega arith
crashes-Step p (receive msg rest live e) = omega arith

crashes-Reach : {s t : System} (p : String) → Reach s t → crashes p s ≤ crashes p t
crashes-Reach p here = omega arith
crashes-Reach p (next r st) = omega (arith, crashes-Reach p r, crashes-Step p st)

no_dispatch-next_write :
    (p : String) (d : Dispatcher) (path : String) (o : Option (List Job))
    → (path == p) ≡ false
    → dispatched p (next_write d path o).1 ≡ []
unfolding next_write release
no_dispatch-next_write p d path none h = dispatched-map p path (readers path d)
no_dispatch-next_write p d path (some []) h = dispatched-map p path (readers path d)
no_dispatch-next_write p d path (some (job ∷ rest)) h = ground arith

-- A round that reads no completion of a path in flight hands out none of its tickets.
no_dispatch :
    (p : String) (d : Dispatcher) (msg : Msg)
    → contains d.inflight p ≡ true
    → reports p msg ≡ 0
    → dispatched p (handle d msg).1 ≡ []
unfolding handle
no_dispatch p d (new ticket rtx) h z = ground (arith, ==_iff ticket.path p)
no_dispatch p d (read path respond) h z = ground arith
no_dispatch p d (done path state respond) h z =
    no_dispatch-next_write p d path (lookup path d.inbox) (ground arith)
no_dispatch p d shutdown h z = refl

-- Once an applier has panicked on a path, the path stays in flight in every state that is reached from
-- there, and the dispatcher never hands out another ticket for it.
pub crash_wedges :
    {s t : System} {msg : Msg} {rest : List Msg} (p : String)
    → Reach start s
    → 0 < crashes p s
    → Reach s t
    → t.channel ≡ msg ∷ rest
    → (contains t.dispatcher.inflight p ≡ true) × (dispatched p (handle t.dispatcher msg).1 ≡ [])
crash_wedges {t = t} {msg} {rest} p r crashed q e =
    let serial = (Reach-IsSerial (Reach-trans r q)).one p in
    let more = crashes-Reach p q in
    let c : completions p t ≡ reports p msg + tally (reports p) rest = ap (tally (reports p)) e in
    let busy : contains t.dispatcher.inflight p ≡ true = ground (arith, serial, more) in
    (busy, no_dispatch p t.dispatcher msg busy (ground (arith, serial, more, c, busy)))
