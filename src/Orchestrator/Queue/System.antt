-- ===== src/Orchestrator/Queue/System.antt =====
-- The threads of queue.rs: agents that submit tickets and ask for reads, the dispatcher, and one
-- short-lived applier for each ticket that it hands out. The channel is read in the order of the
-- sends; any applier may finish at any time, or panic, and then it sends nothing. What an applier
-- does to the files is in Apply.antt.
use role_n.Prelude.{ℕ, String, ◌≡◌, Bool, false, true, List, [], ◌∷◌, ◌++◌, string_eq, ◌==◌, tally}
use role_n.Core.Types.{WriteTicket, TicketState}
use role_n.Orchestrator.Queue.{
  Job, Msg, new, read, done, shutdown, Dispatcher, Effect, dispatch, handle, empty,
}

pub record System : Type 0 where
  pub dispatcher : Dispatcher
  pub channel : List Msg
  pub running : List (String × Job)
  pub crashed : List (String × Job)
  pub halted : Bool

abbrev pub start : System
start = record { dispatcher = empty; channel = []; running = []; crashed = []; halted = false }

-- The applier threads that a round spawns.
abbrev pub spawned : List Effect → List (String × Job)
spawned [] = []
spawned (dispatch path job ∷ effects) = (path, job) ∷ spawned effects
spawned (effect ∷ effects) = spawned effects

abbrev pub is_shutdown : Msg → Bool
is_shutdown shutdown = true
is_shutdown _ = false

-- The dispatcher takes `msg`, the head of the channel, and leaves `rest`.
abbrev pub receive_state : System → Msg → List Msg → System
receive_state s msg rest = record {
  dispatcher = (handle s.dispatcher msg).0;
  channel = rest;
  running = s.running ++ spawned (handle s.dispatcher msg).1;
  crashed = s.crashed;
  halted = is_shutdown msg;
}

pub data Step (s : System) : System → Type 0 where
  submit :
      (ticket : WriteTicket) (rtx : ℕ)
      → Step s (record s { channel = s.channel ++ new ticket rtx ∷ [] })
  ask : (path : String) (rtx : ℕ) → Step s (record s { channel = s.channel ++ read path rtx ∷ [] })
  stop : Step s (record s { channel = s.channel ++ shutdown ∷ [] })
  finish :
      (before after : List (String × Job)) (path : String) (job : Job) (state : TicketState)
      → s.running ≡ before ++ (path, job) ∷ after
      → Step s (record s {
        running = before ++ after;
        channel = s.channel ++ done path state job.respond ∷ [];
      })
  crash :
      (before after : List (String × Job)) (path : String) (job : Job)
      → s.running ≡ before ++ (path, job) ∷ after
      → Step s (record s { running = before ++ after; crashed = (path, job) ∷ s.crashed })
  receive :
      (msg : Msg) (rest : List Msg)
      → s.halted ≡ false
      → s.channel ≡ msg ∷ rest
      → Step s (receive_state s msg rest)

pub data Reach (s : System) : System → Type 0 where
  here : Reach s s
  next : {t u : System} → Reach s t → Step t u → Reach s u

abbrev pub bit : Bool → ℕ
bit true = 1
bit false = 0

abbrev pub runs : String → String × Job → ℕ
runs p (path, job) = bit (path == p)

abbrev pub reports : String → Msg → ℕ
reports p (done path state respond) = bit (path == p)
reports p _ = 0

-- The appliers at work on a path, and the completions of the path that the dispatcher has not read.
abbrev pub appliers : String → System → ℕ
appliers p s = tally (runs p) s.running

abbrev pub completions : String → System → ℕ
completions p s = tally (reports p) s.channel

abbrev pub crashes : String → System → ℕ
crashes p s = tally (runs p) s.crashed
