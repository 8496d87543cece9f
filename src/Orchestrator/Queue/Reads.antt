-- ===== src/Orchestrator/Queue/Reads.antt =====
-- The read path of queue.rs (`read_text`): a file is read only while its path is at rest.
use role_n.Prelude.{
  ◌+◌, ◌≤◌, String, ◌≡◌, refl, ap, ◌≢◌, Option, none, some, List, [], ◌∷◌, contains, string_eq,
  ==_iff, tally, arith,
}
use role_n.Prelude.Dict.{lookup, lookup-remove}
use role_n.Orchestrator.Queue.{
  Job, Msg, new, read, done, shutdown, Dispatcher, handle, release, next_write,
}
use role_n.Orchestrator.Queue.Tidy.{backlog, readers, IsTidy}
use role_n.Orchestrator.Queue.Fifo.{fulfilled, fulfilled-map}
use role_n.Orchestrator.Queue.System.{System, start, Reach, bit, reports, appliers, completions}
use role_n.Orchestrator.Queue.Serial.{Reach-IsSerial}

module _ (p : String) (d : Dispatcher) (path : String) where
  -- Only the release of the path itself answers its readers, and then nothing is left to write.
  fulfilled-next_write_ne :
      (o : Option (List Job))
      → lookup path d.inbox ≡ o
      → fulfilled p (next_write d path o).1 ≢ []
      → (path ≡ p) × (backlog p (next_write d path o).0 ≡ [])
  unfolding next_write release
  fulfilled-next_write_ne none e h =
      ground (arith, fulfilled-map p path (readers path d), ==_iff path p)
  fulfilled-next_write_ne (some []) e h =
      ground
        (arith, fulfilled-map p path (readers path d), ==_iff path p, lookup-remove path p d.inbox)
  fulfilled-next_write_ne (some (job ∷ rest)) e h = absurd (h refl)

idle_or_done :
    (p : String) (d : Dispatcher) (msg : Msg)
    → IsTidy d
    → fulfilled p (handle d msg).1 ≢ []
    → (bit (contains d.inflight p) ≤ reports p msg) × (backlog p (handle d msg).0 ≡ [])
unfolding handle
idle_or_done p d (new ticket rtx) t h = absurd (ground arith)
idle_or_done p d (read path respond) t h = ground (arith, ==_iff path p)
idle_or_done p d (done path state respond) t h =
    let (same, quiet) = fulfilled-next_write_ne p d path (lookup path d.inbox) refl h in
    (ground (arith, ==_iff path p), quiet)
idle_or_done p d shutdown t h = absurd (h refl)

-- In every reachable state: if the message that the dispatcher takes next makes it read the file of
-- a path for some reader, then no applier is at work on that path, and no ticket that it has heard
-- for the path is left waiting. So a read sees every write whose ticket stood before it.
pub reads_see_writes :
    {s : System} {msg : Msg} {rest : List Msg} (p : String)
    → Reach start s
    → s.channel ≡ msg ∷ rest
    → fulfilled p (handle s.dispatcher msg).1 ≢ []
    → (appliers p s ≡ 0) × (backlog p (handle s.dispatcher msg).0 ≡ [])
reads_see_writes {s} {msg} {rest} p r e h =
    let serial = Reach-IsSerial r in
    let (calm, quiet) = idle_or_done p s.dispatcher msg serial.tidy h in
    let c : completions p s ≡ reports p msg + tally (reports p) rest = ap (tally (reports p)) e in
    (omega (arith, serial.one p, calm, c), quiet)
