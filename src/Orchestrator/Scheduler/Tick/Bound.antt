-- ===== src/Orchestrator/Scheduler/Tick/Bound.antt =====
-- The loop of scheduler.rs never runs more tasks at once than it may.
use role_n.Prelude.{
  ℕ, zero, suc, ◌+◌, ◌-◌, ◌%◌, ◌^◌, ◌≢◌, ◌≤◌, String, Bool, ◌≡◌, refl, Option, none, some, List, [],
  ◌∷◌, ◌++◌, map, string_eq, get_elem?, length, tally, arith,
}
use role_n.Prelude.Dict.{insert, add}
use role_n.Orchestrator.Dag.{TaskSpec, BatchSpec}
use role_n.Orchestrator.Scheduler.{
  TaskStatus, pending, running, done, failed, ProjectRun, ProjectState, Claims, Event, harvest_one,
}
use role_n.Orchestrator.Scheduler.Harvest.{harvest_one-Settles}
use role_n.Orchestrator.Scheduler.Tick.{
  Round, Board, Batch, consider, consider_pending, consider_all, try_claim, start_task,
  wait_question, dep_failed, poll, poll_dir, set_at, inspect, inspect_state, inspect_all, tick,
  running_in, running_total, is_running_bit,
}
use role_n.Orchestrator.Scheduler.Tick.System.{
  Loop, Step, push, announce, drain, settle as settles, ticks, start, Reach, here, later, update,
}

running-insert :
    (id : String) (v : TaskStatus) (m : List (String × TaskStatus))
    → tally is_running_bit (insert id v m) ≤ tally is_running_bit m + is_running_bit (id, v)
unfolding insert
running-insert id v [] = omega arith
running-insert id v (entry ∷ m) = ground (arith, running-insert id v m)

consider_running :
    (idx : ℕ) (task : TaskSpec) (r : Round)
    → running_in (consider idx task r).state + (consider idx task r).slots
      ≤ running_in r.state + r.slots
unfolding consider consider_pending try_claim start_task wait_question dep_failed
consider_running idx task r = ground (
  arith,
  running-insert task.id running r.state.status,
  running-insert task.id failed r.state.status,
)

consider_all_running :
    (idx : ℕ) (tasks : BatchSpec) (r : Round)
    → running_in (consider_all idx tasks r).state + (consider_all idx tasks r).slots
      ≤ running_in r.state + r.slots
unfolding consider_all
consider_all_running idx [] r = omega arith
consider_all_running idx (task ∷ tasks) r =
    let one = consider_running idx task r in
    let rest = consider_all_running idx tasks (consider idx task r) in omega arith

poll_running :
    (read : String → List String) (s : ProjectState) → running_in (poll read s) ≡ running_in s
unfolding poll poll_dir
poll_running read s = ground arith

pub tally-set_at {ℓ} :
    {A : Type ℓ} (w : A → ℕ) (i : ℕ) (a b : A) (xs : List A)
    → get_elem? xs i ≡ some b
    → tally w (set_at i a xs) + w b ≡ tally w xs + w a
unfolding set_at
tally-set_at w i a b [] e = cc
tally-set_at w zero a b (x ∷ xs) e = ground (arith, e)
tally-set_at w (suc i) a b (x ∷ xs) e = omega (arith, tally-set_at w i a b xs e)

inspect_state_running :
    (read : String → List String) (idx : ℕ) (o : Option ProjectState) (b : Board)
    → get_elem? b.states idx ≡ o
    → running_total (inspect_state read idx o b).states + (inspect_state read idx o b).slots
      ≤ running_total b.states + b.slots
unfolding inspect_state
inspect_state_running read idx none b e = omega arith
inspect_state_running read idx (some s) b e =
    let r : Round = record {
      slots = b.slots;
      state = poll read s;
      claimed = b.claimed;
      events = b.events;
    } in
    let tasks = consider_all_running idx s.run.spec r in
    let polled = poll_running read s in
    let there = tally-set_at running_in idx (consider_all idx s.run.spec r).state s b.states e in
    omega arith

inspect_running :
    (read : String → List String) (idx : ℕ) (b : Board)
    → running_total (inspect read idx b).states + (inspect read idx b).slots
      ≤ running_total b.states + b.slots
unfolding inspect
inspect_running read idx b =
    ground (arith, inspect_state_running read idx (get_elem? b.states idx) b refl)

inspect_all_running :
    (read : String → List String) (rr offset rounds : ℕ) (b : Board)
    → running_total (inspect_all read rr offset rounds b).states
        + (inspect_all read rr offset rounds b).slots
      ≤ running_total b.states + b.slots
unfolding inspect_all
inspect_all_running read rr offset zero b = omega arith
inspect_all_running read rr offset (suc rounds) b =
    let idx = (rr + offset) % 2 ^ 64 % length b.states in
    let one = inspect_running read idx b in
    let rest = inspect_all_running read rr (offset + 1) rounds (inspect read idx b) in omega arith

tick_running :
    (read : String → List String) (max_parallel : ℕ) (b : Batch)
    → running_total b.states ≤ max_parallel
    → running_total (tick read max_parallel b).0.states ≤ max_parallel
unfolding tick
tick_running read max_parallel b h = ground (
  arith,
  inspect_all_running read b.round_robin 0 (length b.states) (record {
    slots = max_parallel - running_total b.states;
    states = b.states;
    claimed = b.claimed;
    events = [];
  }),
)

harvest_one_running :
    (exists : String → String → Bool) (idx : ℕ) (id : String) (s : ProjectState) (c : Claims)
    → (s' : ProjectState) (c' : Claims) (events : List Event)
    → harvest_one exists idx id s c ≡ some (s', c', events)
    → running_in s' ≤ running_in s
harvest_one_running exists idx id s c s' c' events e =
    let r = harvest_one-Settles exists idx id s c s' c' events e in
    rw r.status (by_verdict r.verdict r.settled)
  where
    by_verdict :
        (v : TaskStatus)
        → v ≢ running
        → tally is_running_bit (insert id v s.status) ≤ tally is_running_bit s.status
    by_verdict running n = absurd (n refl)
    by_verdict pending n = let l = running-insert id pending s.status in omega arith
    by_verdict done n = let l = running-insert id done s.status in omega arith
    by_verdict failed n = let l = running-insert id failed s.status in omega arith

update_running :
    (b : Batch) (idx : ℕ) (s s' : ProjectState)
    → get_elem? b.states idx ≡ some s
    → running_in s' ≤ running_in s
    → running_total (update b idx s').states ≤ running_total b.states
update_running b idx s s' g l =
    let there = tally-set_at running_in idx s' s b.states g in omega arith

Step_running :
    (max_parallel : ℕ) {l m : Loop}
    → Step max_parallel l m
    → running_total l.batch.states ≤ max_parallel
    → running_total m.batch.states ≤ max_parallel
Step_running max_parallel (push {l} {s} idx id outcome g r) h =
    let fewer =
      update_running l.batch idx s (record s { results = s.results ++ (id, outcome) ∷ [] }) g
        (omega arith) in
    omega arith
Step_running max_parallel (announce {l} {s} idx id g r) h =
    let fewer =
      update_running l.batch idx s (record s { finished = add id s.finished }) g (omega arith) in
    omega arith
Step_running max_parallel (drain {l} {s} idx t g) h =
    let fewer = update_running l.batch idx s (record s { finished = [] }) g (omega arith) in
    omega arith
Step_running max_parallel (settles {l} {s} {s'} {claimed'} {events} exists idx id t g e) h =
    let fewer =
      update_running l.batch idx s s' g
        (harvest_one_running exists idx id s l.batch.claimed s' claimed' events e) in
    omega arith
Step_running max_parallel (ticks {l} read t) h = tick_running read max_parallel l.batch h

start_running :
    (dir_of : ProjectRun → Option String) (runs : List ProjectRun)
    → running_total (start dir_of runs).batch.states ≡ 0
start_running dir_of [] = refl
start_running dir_of (run ∷ runs) =
    let none_runs = waiting_tasks run.spec in omega (arith, start_running dir_of runs)
  where
    waiting_tasks : (spec : BatchSpec) → tally is_running_bit (map (λ t. (t.id, pending)) spec) ≡ 0
    waiting_tasks [] = refl
    waiting_tasks (t ∷ spec) = omega (arith, waiting_tasks spec)

-- The slots are shared: however workers finish, and whatever the files and the questions on disk, the
-- projects together never have more than `max_parallel` running tasks.
pub bounded_parallelism :
    (max_parallel : ℕ) (dir_of : ProjectRun → Option String) (runs : List ProjectRun) {l : Loop}
    → Reach max_parallel (start dir_of runs) l
    → running_total l.batch.states ≤ max_parallel
bounded_parallelism max_parallel dir_of runs here =
    let none_runs = start_running dir_of runs in omega arith
bounded_parallelism max_parallel dir_of runs (later r step) =
    Step_running max_parallel step (bounded_parallelism max_parallel dir_of runs r)
