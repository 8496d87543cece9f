-- ===== src/Orchestrator/Scheduler/Tick/Exclusion.antt =====
-- Two running tasks of the loop of scheduler.rs never claim the same path.
use role_n.Prelude.{
  ℕ, zero, suc, String, true, ◌≡◌, ◌≢◌, refl, sym, ◌∙◌, subst, ap, Option, some, List, [], ◌∷◌,
  ◌++◌, map, contains, string_eq, arith, get_elem?, All,
}
use role_n.Prelude.Dict.{lookup, add}
use role_n.Orchestrator.Dag.{TaskSpec, BatchSpec, task_of, ok, validate_dag}
use role_n.Orchestrator.Dag.Sound.{validate_dag_sound}
use role_n.Orchestrator.Scheduler.{
  pending, running, ProjectRun, ProjectState, TaskKey, key_eq, claim_key, global_task_key,
}
use role_n.Orchestrator.Scheduler.Harvest.{harvest_one-Settles}
use role_n.Orchestrator.Scheduler.Tick.System.{
  Loop, Step, push, announce, drain, settle, ticks, start_state, start, Reach, here, later,
}
use role_n.Orchestrator.Dag.Unique.{Unique, has_duplicate-Unique}
use role_n.Orchestrator.Scheduler.Tick.Exclusive.{Owns}
use role_n.Orchestrator.Scheduler.Tick.Held.{AllOwn, tick-AllOwn, harvest-AllOwn, same-AllOwn}

Step-AllOwn :
    (max_parallel : ℕ) {l m : Loop}
    → Step max_parallel l m
    → AllOwn l.batch.states l.batch.claimed
    → AllOwn m.batch.states m.batch.claimed
Step-AllOwn max_parallel (push {l} {s} idx id outcome g r) h =
    same-AllOwn idx l.batch.states l.batch.claimed s
      (record s { results = s.results ++ (id, outcome) ∷ [] }) g refl refl h
Step-AllOwn max_parallel (announce {l} {s} idx id g r) h =
    same-AllOwn idx l.batch.states l.batch.claimed s (record s { finished = add id s.finished }) g
      refl refl h
Step-AllOwn max_parallel (drain {l} {s} idx t g) h =
    same-AllOwn idx l.batch.states l.batch.claimed s (record s { finished = [] }) g refl refl h
Step-AllOwn max_parallel (settle {l} {s} {s'} {claimed'} {events} exists idx id t g e) h =
    harvest-AllOwn idx id l.batch.states l.batch.claimed claimed' s s' g
      (harvest_one-Settles exists idx id s l.batch.claimed s' claimed' events e) h
Step-AllOwn max_parallel (ticks {l} read t) h = tick-AllOwn read max_parallel l.batch h

waiting :
    (spec : BatchSpec) (id : String) → lookup id (map (λ t. (t.id, pending)) spec) ≢ some running
unfolding lookup
waiting [] id = cc
waiting (t ∷ spec) id = ground (arith, waiting spec id)

-- Every project of the batch was accepted by `validate_dag`.
abbrev pub Accepted : List ProjectRun → Type 0
Accepted runs = All (λ (run : ProjectRun). validate_dag run.spec ≡ ok tt) runs

abbrev Idle : ProjectState → Type 0
Idle s = ((id : String) → lookup id s.status ≢ some running) × Unique s.run.spec

start-Idle :
    (dir_of : ProjectRun → Option String) (runs : List ProjectRun)
    → Accepted runs
    → (i : ℕ) (s : ProjectState) → get_elem? (start dir_of runs).batch.states i ≡ some s
    → Idle s
start-Idle dir_of [] a i s e = cc
start-Idle dir_of (run ∷ runs) (v, a) zero s e =
    let first : start_state run (dir_of run) ≡ s = cc in
    subst Idle first
      (waiting run.spec, has_duplicate-Unique run.spec (validate_dag_sound run.spec v).0)
start-Idle dir_of (run ∷ runs) (v, a) (suc i) s e = start-Idle dir_of runs a i s e

start-AllOwn :
    (dir_of : ProjectRun → Option String) (runs : List ProjectRun)
    → Accepted runs
    → AllOwn (start dir_of runs).batch.states []
unfolding Owns
start-AllOwn dir_of runs a i s e =
    let (idle, unique) = start-Idle dir_of runs a i s e in
    (λ id task t r p m. absurd (idle id r), unique)

Reach-AllOwn :
    (max_parallel : ℕ) (dir_of : ProjectRun → Option String) (runs : List ProjectRun) {l : Loop}
    → Accepted runs
    → Reach max_parallel (start dir_of runs) l
    → AllOwn l.batch.states l.batch.claimed
Reach-AllOwn max_parallel dir_of runs a here = start-AllOwn dir_of runs a
Reach-AllOwn max_parallel dir_of runs a (later r step) =
    Step-AllOwn max_parallel step (Reach-AllOwn max_parallel dir_of runs a r)

-- In every state of the loop over accepted batches, two running tasks of one workspace that claim the
-- same path are one task, whether they belong to one project or to two.
pub exclusive_claims :
    (max_parallel : ℕ) (dir_of : ProjectRun → Option String) (runs : List ProjectRun) {l : Loop}
    → Accepted runs
    → Reach max_parallel (start dir_of runs) l
    → (i j : ℕ) (s t : ProjectState) (a b : String) (task_a task_b : TaskSpec) (p : String)
    → get_elem? l.batch.states i ≡ some s
    → get_elem? l.batch.states j ≡ some t
    → task_of s.run.spec a ≡ some task_a
    → task_of t.run.spec b ≡ some task_b
    → lookup a s.status ≡ some running
    → lookup b t.status ≡ some running
    → s.run.workdir ≡ t.run.workdir
    → contains task_a.claimed_paths p ≡ true
    → contains task_b.claimed_paths p ≡ true
    → (i ≡ j) × (a ≡ b)
unfolding Owns
exclusive_claims max_parallel dir_of runs {l} ac r i j s t a b task_a task_b p gi gj ta tb ra rb w
      ma mb =
    let own = Reach-AllOwn max_parallel dir_of runs ac r in
    let one = (own i s gi).0 a task_a ta ra p ma in
    let two = (own j t gj).0 b task_b tb rb p mb in
    let both : some (global_task_key i a) ≡ some (global_task_key j b) =
      sym one ∙ ap (λ z. lookup (claim_key z p) l.batch.claimed) w ∙ two in
    let same : global_task_key i a ≡ global_task_key j b = cc in
    (ap (λ (k : TaskKey). k.0) same, ap (λ (k : TaskKey). k.1) same)
