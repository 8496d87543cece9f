-- ===== src/Orchestrator/Scheduler/Harvest.antt =====
-- What settling one finished task does, in scheduler.rs.
use role_n.Prelude.{
  ℕ, String, Bool, ◌≡◌, ◌≢◌, refl, sym, subst, ◌∙◌, Option, none, some, List, [], ◌∷◌, ◌++◌, ◌==◌,
  ==_refl, string_eq, find, ap,
}
use role_n.Prelude.Dict.{lookup, insert, lookup-insert}
use role_n.Orchestrator.Dag.{TaskSpec, task_of}
use role_n.Orchestrator.Scheduler.{
  TaskStatus, running, done, failed, Outcome, completed, crashed, ProjectState, Claims, Event,
  RunReport, key_eq, global_task_key, retain, fail_task, ProjectRun, judge, settle, harvest_task,
  harvest_one, missing,
}

-- Settling a task changes its status, to done or failed, and frees its claims.
pub record Settles (idx : ℕ) (id : String) (s s' : ProjectState) (c c' : Claims) : Type 0 where
  pub verdict : TaskStatus
  pub settled : verdict ≢ running
  pub status : s'.status ≡ insert id verdict s.status
  pub run : s'.run ≡ s.run
  pub drained : s'.results ≡ []
  pub claims : c' ≡ retain (global_task_key idx id) c

judge-verdict :
    (s : ProjectState) (id : String) (report : RunReport) (paths : List String)
    → (v : TaskStatus) × (v ≢ running)
      × ((judge s id report paths).0.status ≡ insert id v s.status)
      × ((judge s id report paths).0.run ≡ s.run)
      × ((judge s id report paths).0.results ≡ s.results)
unfolding judge
judge-verdict s id report [] = (done, cc, refl, refl, refl)
judge-verdict s id report (p ∷ ps) = (failed, cc, refl, refl, refl)

settle-verdict :
    (exists : String → String → Bool) (s : ProjectState) (task : TaskSpec) (id : String)
    → (res : Option (String × Outcome))
    → (v : TaskStatus) × (v ≢ running)
      × ((settle exists s task id res).0.status ≡ insert id v s.status)
      × ((settle exists s task id res).0.run ≡ s.run)
      × ((settle exists s task id res).0.results ≡ s.results)
unfolding settle
settle-verdict exists s task id none = (failed, cc, refl, refl, refl)
settle-verdict exists s task id (some (_, completed report)) =
    judge-verdict s id report (missing exists s task)
settle-verdict exists s task id (some (_, crashed error)) = (failed, cc, refl, refl, refl)

harvest_task-Settles :
    (exists : String → String → Bool) (idx : ℕ) (id : String) (o : Option TaskSpec)
    → (s : ProjectState) (c : Claims) (s' : ProjectState) (c' : Claims) (events : List Event)
    → harvest_task exists idx id o s c ≡ some (s', c', events)
    → Settles idx id s s' c c'
unfolding harvest_task
harvest_task-Settles exists idx id none s c s' c' events e = cc
harvest_task-Settles exists idx id (some task) s c s' c' events e =
    let (v, n, st, ru, dr) =
      settle-verdict exists (record s { results = [] }) task id (find (λ r. r.0 == id) s.results) in
    record {
      verdict = v;
      settled = n;
      status = ap (λ r. (or_left s c r).0.status) (sym e) ∙ st;
      run = ap (λ r. (or_left s c r).0.run) (sym e) ∙ ru;
      drained = ap (λ r. (or_left s c r).0.results) (sym e) ∙ dr;
      claims = ap (λ r. (or_left s c r).1) (sym e);
    }
  where
    or_left :
        ProjectState → Claims → Option (ProjectState × Claims × List Event) → ProjectState × Claims
    or_left s c none = (s, c)
    or_left s c (some (s', c', _)) = (s', c')

pub harvest_one-Settles :
    (exists : String → String → Bool) (idx : ℕ) (id : String) (s : ProjectState) (c : Claims)
    → (s' : ProjectState) (c' : Claims) (events : List Event)
    → harvest_one exists idx id s c ≡ some (s', c', events)
    → Settles idx id s s' c c'
unfolding harvest_one
harvest_one-Settles exists idx id s c =
    harvest_task-Settles exists idx id (task_of s.run.spec id) s c

-- A result that was not drained with its task is lost.
settle_empty :
    (exists : String → String → Bool) (idx : ℕ) (id : String) (task : TaskSpec)
    → (s : ProjectState) (c : Claims) → s.results ≡ []
    → task_of s.run.spec id ≡ some task
    → (s' : ProjectState) × (harvest_one exists idx id s c
        ≡ some (s', retain (global_task_key idx id) c, []))
      × (lookup id s'.status ≡ some failed)
      × (s'.failures ≡ s.failures ++ (id, "worker vanished") ∷ [])
unfolding harvest_one harvest_task settle
settle_empty exists idx id task s c r t =
    let s' = fail_task (record s { results = [] }) id "worker vanished" in
    (s', rw (t, r) refl, lookup-insert id id failed s.status ∙ rw (==_refl id) refl, refl)

-- A tick that finds two finished tasks of one project loses a result: settling the first drains the
-- results of both, so the second is failed as vanished, whatever it had reported and whichever of its
-- files exist, and no event tells of it.
pub second_finished_vanishes :
    (exists : String → String → Bool) (idx : ℕ) (a b : String) (task : TaskSpec)
    → (s : ProjectState) (c : Claims) (s' : ProjectState) (c' : Claims) (events : List Event)
    → harvest_one exists idx a s c ≡ some (s', c', events)
    → task_of s.run.spec b ≡ some task
    → (t : ProjectState) × (harvest_one exists idx b s' c'
        ≡ some (t, retain (global_task_key idx b) c', []))
      × (lookup b t.status ≡ some failed)
      × (t.failures ≡ s'.failures ++ (b, "worker vanished") ∷ [])
second_finished_vanishes exists idx a b task s c s' c' events e t =
    let r = harvest_one-Settles exists idx a s c s' c' events e in
    settle_empty exists idx b task s' c' r.drained
      (subst (λ (run : ProjectRun). task_of run.spec b ≡ some task) (sym r.run) t)
