-- ===== src/Orchestrator/Scheduler/Tick/Tests.antt =====
-- A batch of two tasks that claim one file, run by the loop of scheduler.rs, and the theorems there.
use role_n.Prelude.{
  ℕ, ◌≤◌, ◌<◌, String, true, false, ◌≡◌, ◌≢◌, refl, Option, none, some, List, [], ◌∷◌, ◌++◌,
  contains, string_eq, get_elem?,
}
use role_n.Prelude.Dict.{lookup, insert, add, discard}
use role_n.Orchestrator.Dag.Samples.{claimer, pair, pair_accepted}
use role_n.Orchestrator.Dag.Reject.{Depends}
use role_n.Orchestrator.Questions.{blocked_by_question}
use role_n.Orchestrator.Scheduler.{
  pending, running, done, failed, completed, RunReport, ProjectRun, ProjectState, claim_key,
  global_task_key, retain, harvest_one, task_done,
}
use role_n.Orchestrator.Scheduler.Harvest.{second_finished_vanishes}
use role_n.Orchestrator.Scheduler.Tick.{Round, consider, tick, running_total}
use role_n.Orchestrator.Scheduler.Tick.System.{Loop, ticks, start, start_state, Reach, here, later}
use role_n.Orchestrator.Scheduler.Tick.Bound.{bounded_parallelism}
use role_n.Orchestrator.Scheduler.Tick.Start.{started_ready}
use role_n.Orchestrator.Scheduler.Tick.Exclusion.{exclusive_claims}

abbrev one_run : ProjectRun
one_run = record { project_id = "p"; spec = pair; workdir = "w" }

abbrev no_dir : ProjectRun → Option String
no_dir run = none

abbrev no_questions : String → List String
no_questions dir = []

abbrev first_loop : Loop
first_loop = start no_dir (one_run ∷ [])

abbrev ticked : Loop
ticked = record first_loop { batch = (tick no_questions 2 first_loop.batch).0 }

ticked-Reach : Reach 2 first_loop ticked
ticked-Reach = later here (ticks no_questions refl)

bounded_parallelism_example : running_total ticked.batch.states ≤ 2
bounded_parallelism_example = bounded_parallelism 2 no_dir (one_run ∷ []) ticked-Reach

-- The second task waits for the claim of the first.
abbrev after_tick : ProjectState
after_tick = record (start_state one_run none) { status = ("a", running) ∷ ("b", pending) ∷ [] }

one_starts :
    (ticked.batch.states ≡ after_tick ∷ []) × (ticked.batch.claimed ≡ ("w::x.rs", (0, "a")) ∷ [])
unfolding tick consider blocked_by_question lookup insert add discard
one_starts = (refl, refl)

shown : get_elem? ticked.batch.states 0 ≡ some after_tick
shown = rw one_starts.0 refl

running_a : lookup "a" after_tick.status ≡ some running
unfolding lookup
running_a = refl

exclusive_claims_example : (◌≡◌ {A = ℕ} 0 0) × (◌≡◌ {A = String} "a" "a")
exclusive_claims_example =
    exclusive_claims 2 no_dir (one_run ∷ []) (pair_accepted, tt) ticked-Reach 0 0 after_tick
      after_tick "a" "a" (claimer "a") (claimer "a") "x.rs" shown shown refl refl running_a
      running_a refl refl refl

abbrev first_round : Round
first_round = record { slots = 2; state = start_state one_run none; claimed = []; events = [] }

a_waits : lookup "a" first_round.state.status ≢ some running
unfolding lookup
a_waits = cc

a_runs : lookup "a" (consider 0 (claimer "a") first_round).state.status ≡ some running
unfolding consider blocked_by_question lookup insert discard
a_runs = refl

started_ready_example :
    (0 < 2)
    × ((consider 0 (claimer "a") first_round).slots ≡ 1)
    × (lookup "a" first_round.state.status ≡ some pending)
    × ((d : String)
        → contains {A = String} [] d ≡ true
        → lookup d first_round.state.status ≡ some done)
    × ((d : String) → Depends pair d "a" → contains {A = String} [] d ≡ false)
    × ((p : String)
        → contains ("x.rs" ∷ []) p ≡ true
        → lookup (claim_key "w" p) first_round.claimed ≡ none)
started_ready_example = started_ready 0 (claimer "a") first_round a_waits a_runs

abbrev report : RunReport
report = record {
  session_id = "s";
  provider = "p";
  model = "m";
  final_text = "";
  steps = 1;
  tokens_in = 1;
  tokens_out = 1;
}

-- Both tasks completed, and both files exist.
abbrev both_done : ProjectState
both_done = record (start_state one_run none) {
  status = ("a", running) ∷ ("b", running) ∷ [];
  results = ("a", completed report) ∷ ("b", completed report) ∷ [];
}

abbrev a_settled : ProjectState
a_settled = record both_done {
  status = ("a", done) ∷ ("b", running) ∷ [];
  results = [];
  done_reports = ("a", report) ∷ [];
}

a_settles :
    harvest_one (λ w p. true) 0 "a" both_done [] ≡ some (a_settled, [], task_done "p" "a" 2 1 ∷ [])
unfolding harvest_one insert
a_settles = refl

second_finished_vanishes_example :
    (t : ProjectState) × (harvest_one (λ w p. true) 0 "b" a_settled []
      ≡ some (t, retain (global_task_key 0 "b") [], []))
    × (lookup "b" t.status ≡ some failed)
    × (t.failures ≡ [] ++ ("b", "worker vanished") ∷ [])
second_finished_vanishes_example =
    second_finished_vanishes (λ w p. true) 0 "a" "b" (claimer "b") both_done [] a_settled []
      (task_done "p" "a" 2 1 ∷ []) a_settles refl
