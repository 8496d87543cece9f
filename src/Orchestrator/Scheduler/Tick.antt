-- ===== src/Orchestrator/Scheduler/Tick.antt =====
-- One tick of the loop of `run_projects` in scheduler.rs: the free slots are offered to the projects
-- in turn, and in each to its tasks in order. The questions on disk are a parameter.
pub mod System
pub mod Bound
pub mod Exclusive
pub mod Held
pub mod Exclusion
pub mod Start
mod Tests
use role_n.Prelude.{
  ℕ, zero, suc, ◌+◌, ◌-◌, ◌%◌, ◌^◌, String, Bool, true, false, not, ◌||◌, Option, none, some, List,
  [], ◌∷◌, ◌++◌, if◌then◌else◌, eqb, any, all, contains, string_eq, get_elem?, length, tally,
}
use role_n.Prelude.Dict.{lookup, insert, add, discard}
use role_n.Orchestrator.Dag.{TaskSpec, BatchSpec}
use role_n.Orchestrator.Questions.{blocked_by_question}
use role_n.Orchestrator.Scheduler.{
  TaskStatus, pending, running, done, failed, Event, task_started, task_failed, waiting,
  ProjectState, TaskKey, global_task_key, Claims, claim_key, fail_task,
}

-- What the loop over the tasks of one project changes.
pub record Round : Type 0 where
  pub slots : ℕ
  pub state : ProjectState
  pub claimed : Claims
  pub events : List Event

abbrev emit : Event → Round → Round
emit e r = record r { events = r.events ++ e ∷ [] }

abbrev pub is_pending : Option TaskStatus → Bool
is_pending (some pending) = true
is_pending _ = false

abbrev pub is_done : Option TaskStatus → Bool
is_done (some done) = true
is_done _ = false

abbrev pub is_failed : Option TaskStatus → Bool
is_failed (some failed) = true
is_failed _ = false

abbrev pub is_running : TaskStatus → Bool
is_running running = true
is_running _ = false

abbrev is_some : Option TaskKey → Bool
is_some none = false
is_some (some _) = true

-- `for p in &task.claimed_paths { claimed.insert(..) }`
pub claim_all : String → TaskKey → List String → Claims → Claims
claim_all workdir key [] claimed = claimed
claim_all workdir key (p ∷ ps) claimed =
    claim_all workdir key ps (insert (claim_key workdir p) key claimed)

abbrev pub overlaps : String → List String → Claims → Bool
overlaps workdir paths claimed = any (λ p. is_some (lookup (claim_key workdir p) claimed)) paths

start_task : ℕ → TaskSpec → Round → Round
unfolding claim_all
start_task idx task r =
    let s = r.state in
    record {
      slots = r.slots - 1;
      state = record s { status = insert task.id running s.status };
      claimed = claim_all s.run.workdir (global_task_key idx task.id) task.claimed_paths r.claimed;
      events = r.events ++ task_started s.run.project_id task.id task.role ∷ [];
    }

try_claim : ℕ → TaskSpec → Round → Round
unfolding start_task
try_claim idx task r =
    if overlaps r.state.run.workdir task.claimed_paths r.claimed
    then emit (waiting r.state.run.project_id task.id "path claim overlap with a running task") r
    else start_task idx task r

-- A wait for an answer is reported once.
wait_question : TaskSpec → Round → Round
wait_question task r =
    let s = r.state in
    if contains s.question_wait_reported task.id
    then r
    else emit
        (waiting s.run.project_id task.id
          "awaiting answer to a clarification question (see the TUI Questions tab)")
        (record r {
          state = record s { question_wait_reported = add task.id s.question_wait_reported };
        })

dep_failed : TaskSpec → Round → Round
dep_failed task r =
    emit (task_failed r.state.run.project_id task.id "dependency failed")
      (record r { state = fail_task r.state task.id "dependency failed" })

abbrev pub any_failed : TaskSpec → ProjectState → Bool
any_failed task s = any (λ d. is_failed (lookup d s.status)) task.deps

abbrev pub all_done : TaskSpec → ProjectState → Bool
all_done task s = all (λ d. is_done (lookup d s.status)) task.deps

consider_pending : ℕ → TaskSpec → Round → Round
unfolding dep_failed wait_question try_claim
consider_pending idx task r =
    let s = r.state in
    if any_failed task s
    then dep_failed task r
    else if not (all_done task s)
    then r
    else if blocked_by_question s.run.spec task.id s.pending_questions
    then wait_question task r
    else try_claim idx task (record r {
      state = record s { question_wait_reported = discard task.id s.question_wait_reported };
    })

-- One round of the loop over the tasks. Without a slot it breaks off: the rounds after it do nothing.
pub consider : ℕ → TaskSpec → Round → Round
unfolding consider_pending
consider idx task r =
    if eqb r.slots 0 || not (is_pending (lookup task.id r.state.status))
    then r
    else consider_pending idx task r

pub consider_all : ℕ → BatchSpec → Round → Round
consider_all idx [] r = r
consider_all idx (task ∷ tasks) r = consider_all idx tasks (consider idx task r)

-- The questions are read again on every tenth inspection.
poll_dir : (String → List String) → Option String → ProjectState → ProjectState
poll_dir read none s = s
poll_dir read (some dir) s =
    if eqb s.poll_countdown 0
    then record s { pending_questions = read dir; poll_countdown = 10 - 1 }
    else record s { poll_countdown = s.poll_countdown - 1 }

pub poll : (String → List String) → ProjectState → ProjectState
unfolding poll_dir
poll read s = poll_dir read s.project_dir s

pub set_at {ℓ} : {A : Type ℓ} → ℕ → A → List A → List A
set_at i a [] = []
set_at zero a (x ∷ xs) = a ∷ xs
set_at (suc i) a (x ∷ xs) = x ∷ set_at i a xs

-- The slots that are left, the projects, the claims and the events so far.
pub record Board : Type 0 where
  pub slots : ℕ
  pub states : List ProjectState
  pub claimed : Claims
  pub events : List Event

inspect_state : (String → List String) → ℕ → Option ProjectState → Board → Board
unfolding set_at poll consider_all
inspect_state read idx none b = b
inspect_state read idx (some s) b =
    let s' = poll read s in
    let r =
      consider_all idx s.run.spec
        (record { slots = b.slots; state = s'; claimed = b.claimed; events = b.events }) in
    record {
      slots = r.slots;
      states = set_at idx r.state b.states;
      claimed = r.claimed;
      events = r.events;
    }

pub inspect : (String → List String) → ℕ → Board → Board
unfolding inspect_state
inspect read idx b = if eqb b.slots 0 then b else inspect_state read idx (get_elem? b.states idx) b

-- `for offset in 0..states.len()`, with `rounds` offsets left.
pub inspect_all : (String → List String) → ℕ → ℕ → ℕ → Board → Board
unfolding inspect
inspect_all read round_robin offset zero b = b
inspect_all read round_robin offset (suc rounds) b =
    inspect_all read round_robin (offset + 1) rounds
      (inspect read ((round_robin + offset) % 2 ^ 64 % length b.states) b)

abbrev pub is_running_bit : String × TaskStatus → ℕ
is_running_bit (_, running) = 1
is_running_bit _ = 0

abbrev pub running_in : ProjectState → ℕ
running_in s = tally is_running_bit s.status

-- The running tasks of all projects.
abbrev pub running_total : List ProjectState → ℕ
running_total states = tally running_in states

pub record Batch : Type 0 where
  pub states : List ProjectState
  pub claimed : Claims
  pub round_robin : ℕ

pub tick : (String → List String) → ℕ → Batch → Batch × List Event
unfolding inspect_all
tick read max_parallel b =
    let slots = max_parallel - running_total b.states in
    if eqb slots 0
    then (b, [])
    else let end =
        inspect_all read b.round_robin 0 (length b.states)
          (record { slots = slots; states = b.states; claimed = b.claimed; events = [] }) in
      (
        record {
          states = end.states;
          claimed = end.claimed;
          round_robin = (b.round_robin + 1) % 2 ^ 64;
        },
        end.events,
      )
