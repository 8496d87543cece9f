-- ===== src/Orchestrator/Scheduler.antt =====
-- The loop of `run_projects` in rolen-orchestrator/src/scheduler.rs: its state, and the harvest of
-- finished tasks. The write queue of a project is modelled in Queue; a checkpoint in git changes
-- nothing that the loop reads. Which paths exist is a parameter.
pub mod Tick
pub mod Harvest
pub mod Cap
use Prim.Native.String.{◌++◌ as concat}
use role_n.Prelude.{
  ℕ, ◌+◌, ◌/◌, max, ◌≡◌, ◌↔◌, String, Bool, true, false, not, ◌&&◌, ◌||◌, Option, none, some, List,
  [], ◌∷◌, ◌++◌, if◌then◌else◌, eqb, leb, Eq, ◌==◌, ==_iff, nat_eq, string_eq, filter, find, arith,
}
use role_n.Prelude.Dict.{insert}
use role_n.Orchestrator.Dag.{TaskSpec, BatchSpec, task_of}

-- `RunReport`, without its cost, which the loop only passes on.
pub record RunReport : Type 0 where
  pub session_id : String
  pub provider : String
  pub model : String
  pub final_text : String
  pub steps : ℕ
  pub tokens_in : ℕ
  pub tokens_out : ℕ

-- `Result<RunReport, RuntimeError>`, the error by its text.
pub data Outcome : Type 0 where
  completed : RunReport → Outcome
  crashed : String → Outcome

pub data TaskStatus : Type 0 where
  pending running done failed : TaskStatus

-- The events of the loop itself, by the project and the task.
pub data Event : Type 0 where
  task_started task_failed waiting : String → String → String → Event
  task_done : String → String → ℕ → ℕ → Event

pub record ProjectRun : Type 0 where
  pub project_id : String
  pub spec : BatchSpec
  pub workdir : String

pub record ProjectState : Type 0 where
  pub run : ProjectRun
  pub status : List (String × TaskStatus)
  pub results : List (String × Outcome)
  pub finished : List String
  pub done_reports : List (String × RunReport)
  pub failures : List (String × String)
  pub project_dir : Option String
  pub pending_questions : List String
  pub question_wait_reported : List String
  pub poll_countdown : ℕ

-- The text `idx:id` of a task, by its parts: the digits before the first colon are the index.
abbrev pub TaskKey : Type 0
TaskKey = ℕ × String

abbrev pub global_task_key : ℕ → String → TaskKey
global_task_key idx id = (idx, id)

abbrev key_same : TaskKey → TaskKey → Bool
key_same j k = j.0 == k.0 && j.1 == k.1

pub key_same_iff : (j k : TaskKey) → (key_same j k ≡ true) ↔ (j ≡ k)
key_same_iff (i, a) (j, b) = ground (arith, ==_iff i j, ==_iff a b)

instance abbrev pub key_eq : Eq TaskKey
key_eq = record { same = key_same; same_iff = key_same_iff }

-- The claimed paths, by claim key, with the task that holds each.
abbrev pub Claims : Type 0
Claims = List (String × TaskKey)

abbrev pub claim_key : String → String → String
claim_key workdir rel = concat workdir (concat "::" rel)

-- The cap of the write queue of each of several projects.
pub per_project_queue_cap : ℕ → ℕ → ℕ
per_project_queue_cap total projects =
    if eqb total 0 || leb projects 1 then total else max (total / projects) 1

abbrev pub fail_task : ProjectState → String → String → ProjectState
fail_task s id error = record s {
  status = insert id failed s.status;
  failures = s.failures ++ (id, error) ∷ [];
}

abbrev joined : List String → String
joined [] = ""
joined (p ∷ []) = p
joined (p ∷ q ∷ ps) = concat p (concat ", " (joined (q ∷ ps)))

-- The honesty check on a completed task, by the claimed files that are missing.
judge : ProjectState → String → RunReport → List String → ProjectState × List Event
judge s id report [] = (
  record s { status = insert id done s.status; done_reports = s.done_reports ++ (id, report) ∷ [] },
  task_done s.run.project_id id (report.tokens_in + report.tokens_out) report.steps ∷ [],
)
judge s id report (p ∷ ps) =
    let error = concat "agent finished but claimed file(s) missing: " (joined (p ∷ ps)) in
    (fail_task s id error, task_failed s.run.project_id id error ∷ [])

abbrev pub missing : (String → String → Bool) → ProjectState → TaskSpec → List String
missing exists s task = filter (λ p. not (exists s.run.workdir p)) task.claimed_paths

-- The `match` on the result that was found for the task.
settle :
    (String → String → Bool)
    → ProjectState
    → TaskSpec
    → String
    → Option (String × Outcome)
    → ProjectState × List Event
unfolding judge
settle exists s task id none = (fail_task s id "worker vanished", [])
settle exists s task id (some (_, completed report)) = judge s id report (missing exists s task)
settle exists s task id (some (_, crashed error)) =
    (fail_task s id error, task_failed s.run.project_id id error ∷ [])

-- `claimed.retain(|_, owner| owner != &gkey)`
abbrev pub retain : TaskKey → Claims → Claims
retain key claimed = filter (λ c. not (c.1 == key)) claimed

harvest_task :
    (String → String → Bool)
    → ℕ
    → String
    → Option TaskSpec
    → ProjectState
    → Claims
    → Option (ProjectState × Claims × List Event)
unfolding settle
harvest_task exists idx id none s claimed = none
harvest_task exists idx id (some task) s claimed =
    let res = find (λ r. r.0 == id) s.results in
    let (s', events) = settle exists (record s { results = [] }) task id res in
    some (s', retain (global_task_key idx id) claimed, events)

-- One round of the loop over the ids that have just finished; `none` is the panic of the `unwrap`.
-- All results are drained, and the first of this task is kept.
pub harvest_one :
    (String → String → Bool)
    → ℕ
    → String
    → ProjectState
    → Claims
    → Option (ProjectState × Claims × List Event)
unfolding harvest_task
harvest_one exists idx id s claimed = harvest_task exists idx id (task_of s.run.spec id) s claimed
