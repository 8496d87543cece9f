-- ===== src/Orchestrator/Scheduler/Tick/System.antt =====
-- The loop of `run_projects` in scheduler.rs with the worker threads that it has started, as a step
-- relation. A worker pushes its result and then announces its task; the loop drains what is
-- announced, settles one task after the other, and ticks. The files and the questions on disk may
-- differ from step to step.
use role_n.Prelude.{
  ℕ, String, Bool, ◌≡◌, Option, some, List, [], ◌∷◌, ◌++◌, map, string_eq, get_elem?,
}
use role_n.Prelude.Dict.{lookup, add}
use role_n.Orchestrator.Scheduler.{
  pending, running, Outcome, ProjectRun, ProjectState, TaskKey, Claims, Event, harvest_one,
}
use role_n.Orchestrator.Scheduler.Tick.{Batch, set_at, tick}

-- `todo` holds the tasks that were drained and are not settled yet.
pub record Loop : Type 0 where
  pub batch : Batch
  pub todo : List TaskKey

abbrev pub update : Batch → ℕ → ProjectState → Batch
update b idx s = record b { states = set_at idx s b.states }

pub data Step (max_parallel : ℕ) : Loop → Loop → Type 0 where
  push :
      {l : Loop} {s : ProjectState} (idx : ℕ) (id : String) (outcome : Outcome)
      → get_elem? l.batch.states idx ≡ some s
      → lookup id s.status ≡ some running
      → Step max_parallel l (record l {
        batch = update l.batch idx (record s { results = s.results ++ (id, outcome) ∷ [] });
      })
  announce :
      {l : Loop} {s : ProjectState} (idx : ℕ) (id : String)
      → get_elem? l.batch.states idx ≡ some s
      → lookup id s.status ≡ some running
      → Step max_parallel l
          (record l { batch = update l.batch idx (record s { finished = add id s.finished }) })
  drain :
      {l : Loop} {s : ProjectState} (idx : ℕ)
      → l.todo ≡ []
      → get_elem? l.batch.states idx ≡ some s
      → Step max_parallel l (record {
        batch = update l.batch idx (record s { finished = [] });
        todo = map (λ id. (idx, id)) s.finished;
      })
  settle :
      {l : Loop} {s s' : ProjectState} {claimed' : Claims} {events : List Event}
      {rest : List TaskKey} (exists : String → String → Bool) (idx : ℕ) (id : String)
      → l.todo ≡ (idx, id) ∷ rest
      → get_elem? l.batch.states idx ≡ some s
      → harvest_one exists idx id s l.batch.claimed ≡ some (s', claimed', events)
      → Step max_parallel l
          (record { batch = record (update l.batch idx s') { claimed = claimed' }; todo = rest })
  ticks :
      {l : Loop} (read : String → List String)
      → l.todo ≡ []
      → Step max_parallel l (record l { batch = (tick read max_parallel l.batch).0 })

-- All tasks wait.
abbrev pub start_state : ProjectRun → Option String → ProjectState
start_state run dir = record {
  run = run;
  status = map (λ t. (t.id, pending)) run.spec;
  results = [];
  finished = [];
  done_reports = [];
  failures = [];
  project_dir = dir;
  pending_questions = [];
  question_wait_reported = [];
  poll_countdown = 0;
}

abbrev pub start : (ProjectRun → Option String) → List ProjectRun → Loop
start dir_of runs = record {
  batch = record {
    states = map (λ run. start_state run (dir_of run)) runs;
    claimed = [];
    round_robin = 0;
  };
  todo = [];
}

pub data Reach (max_parallel : ℕ) (l : Loop) : Loop → Type 0 where
  here : Reach max_parallel l l
  later : {m n : Loop} → Reach max_parallel l m → Step max_parallel m n → Reach max_parallel l n
