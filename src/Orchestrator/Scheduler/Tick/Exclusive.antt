-- ===== src/Orchestrator/Scheduler/Tick/Exclusive.antt =====
-- In the loop of scheduler.rs every running task holds all the paths that it claims.
use role_n.Prelude.{
  ℕ, String, true, false, ◌≡◌, ◌≢◌, refl, sym, ◌∙◌, subst, ap, inl, inr, none, some, List, [], ◌∷◌,
  if◌then◌else◌, ◌==◌, ==_iff, ==_refl, Bool-cases, contains, string_eq, arith, any, All,
}
use role_n.Prelude.Dict.{lookup, insert, lookup-insert}
use role_n.Orchestrator.Dag.{TaskSpec, BatchSpec, task_of}
use role_n.Orchestrator.Scheduler.{
  TaskStatus, running, failed, ProjectRun, ProjectState, TaskKey, key_eq, Claims, claim_key,
  global_task_key,
}
use role_n.Orchestrator.Scheduler.Tick.{Round, overlaps, claim_all, consider, consider_all}
use role_n.Orchestrator.Scheduler.Tick.Start.{
  keeps, fails, starts, consider-Change, consider-run, overlaps-free,
}

-- The running tasks of a project hold their paths.
unfoldable pub Owns : ℕ → ProjectState → Claims → Type 0
Owns idx s c =
    (id : String) (task : TaskSpec)
    → task_of s.run.spec id ≡ some task
    → lookup id s.status ≡ some running
    → (p : String) → contains task.claimed_paths p ≡ true
    → lookup (claim_key s.run.workdir p) c ≡ some (global_task_key idx id)

-- No claim is lost or changed.
abbrev pub Grants : Claims → Claims → Type 0
Grants c c' = (k : String) (owner : TaskKey) → lookup k c ≡ some owner → lookup k c' ≡ some owner

claim_all-lookup :
    (workdir : String) (key : TaskKey) (paths : List String) (c : Claims) (k : String)
    → lookup k (claim_all workdir key paths c)
      ≡ (if any (λ p. claim_key workdir p == k) paths then some key else lookup k c)
unfolding claim_all
claim_all-lookup workdir key [] c k = refl
claim_all-lookup workdir key (p ∷ paths) c k = ground (
  arith,
  claim_all-lookup workdir key paths (insert (claim_key workdir p) key c) k,
  lookup-insert (claim_key workdir p) k key c,
)

overlaps-held :
    (workdir : String) (paths : List String) (c : Claims) (k : String)
    → overlaps workdir paths c ≡ false
    → any (λ p. claim_key workdir p == k) paths ≡ true
    → lookup k c ≡ none
overlaps-held workdir [] c k o a = cc
overlaps-held workdir (p ∷ paths) c k o a = elim (Bool-cases (claim_key workdir p == k)) [
  | inl s ↦
      subst (λ z. lookup z c ≡ none) ((==_iff (claim_key workdir p) k).0 s)
        (overlaps-free workdir (p ∷ paths) c p o (ground (arith, ==_refl p)))
  | inr s ↦ overlaps-held workdir paths c k (ground (arith, o)) (ground (arith, a, s))
]

any-claimed :
    (workdir : String) (paths : List String) (p : String)
    → contains paths p ≡ true
    → any (λ q. claim_key workdir q == claim_key workdir p) paths ≡ true
any-claimed workdir [] p m = cc
any-claimed workdir (q ∷ paths) p m = elim (Bool-cases (q == p)) [
  | inl s ↦
      subst (λ z. any (λ q. claim_key workdir q == claim_key workdir z) (q ∷ paths) ≡ true)
        ((==_iff q p).0 s) (ground (arith, ==_refl (claim_key workdir q)))
  | inr s ↦ ground (arith, any-claimed workdir paths p (ground (arith, m, s)))
]

claim_all-Grants :
    (workdir : String) (key : TaskKey) (paths : List String) (c : Claims)
    → overlaps workdir paths c ≡ false
    → Grants c (claim_all workdir key paths c)
claim_all-Grants workdir key paths c o k owner e =
    elim (Bool-cases (any (λ p. claim_key workdir p == k) paths)) [
      | inl a ↦ absurd (ground (arith, e, overlaps-held workdir paths c k o a))
      | inr a ↦ ground (arith, a, e, claim_all-lookup workdir key paths c k)
    ]

consider-Grants :
    (idx : ℕ) (task : TaskSpec) (r : Round) → Grants r.claimed (consider idx task r).claimed
consider-Grants idx task r k owner e = elim (consider-Change idx task r) [
  | keeps s c l ↦ rw c e
  | fails f s c l ↦ rw c e
  | starts l p d b o s c u ↦ rw c (
      claim_all-Grants r.state.run.workdir (global_task_key idx task.id) task.claimed_paths
        r.claimed o k owner e)
]

-- What is still running was running, and keeps its claims.
pub Owns-keep :
    (idx : ℕ) (s s' : ProjectState) (c c' : Claims)
    → s'.run ≡ s.run
    → ((j : String)
        → lookup j s'.status ≡ some running
        → (lookup j s.status ≡ some running)
          × ((k : String)
              → lookup k c ≡ some (global_task_key idx j)
              → lookup k c' ≡ some (global_task_key idx j)))
    → Owns idx s c
    → Owns idx s' c'
unfolding Owns
Owns-keep idx s s' c c' same keep h j task t r p m =
    let (was, kept) = keep j r in
    subst (λ (run : ProjectRun). lookup (claim_key run.workdir p) c' ≡ some (global_task_key idx j))
      (sym same)
      (kept (claim_key s.run.workdir p)
        (h j task (subst (λ (run : ProjectRun). task_of run.spec j ≡ some task) same t) was p m))

pub Owns-Grants :
    (idx : ℕ) (s : ProjectState) (c c' : Claims) → Grants c c' → Owns idx s c → Owns idx s c'
Owns-Grants idx s c c' g =
    Owns-keep idx s s c c' refl (λ j r. (r, λ k. g k (global_task_key idx j)))

pub insert-running :
    (id : String) (v : TaskStatus) (m m' : List (String × TaskStatus)) (j : String)
    → v ≢ running
    → m' ≡ insert id v m
    → lookup j m' ≡ some running
    → (lookup j m ≡ some running) × (j ≢ id)
insert-running id v m m' j n e r =
    let at : (if id == j then some v else lookup j m) ≡ some running =
      sym (lookup-insert id j v m) ∙ subst (λ z. lookup j z ≡ some running) e r in
    elim (Bool-cases (id == j)) [
      | inl s ↦ absurd (n (ground (arith, at, s)))
      | inr s ↦ (ground (arith, at, s), λ q. ground (arith, ==_iff id j, s, q))
    ]

module _ (idx : ℕ) (task : TaskSpec) (r : Round) where
  -- The task that was just started owns its paths as well.
  start-Owns :
      (r' : Round)
      → r'.state.run ≡ r.state.run
      → r'.state.status ≡ insert task.id running r.state.status
      → r'.claimed
        ≡ claim_all r.state.run.workdir (global_task_key idx task.id) task.claimed_paths r.claimed
      → Grants r.claimed r'.claimed
      → task_of r.state.run.spec task.id ≡ some task
      → Owns idx r.state r.claimed
      → Owns idx r'.state r'.claimed
  unfolding Owns
  start-Owns r' same st cl g t h j other u run p m = elim (Bool-cases (task.id == j)) [
    | inl s ↦ own ((==_iff task.id j).0 s)
    | inr s ↦
        let was : lookup j r.state.status ≡ some running = ground (
          arith,
          s,
          sym (lookup-insert task.id j running r.state.status)
              ∙ subst (λ z. lookup j z ≡ some running) st run,
        ) in
        subst
          (λ (w : ProjectRun).
            lookup (claim_key w.workdir p) r'.claimed ≡ some (global_task_key idx j))
          (sym same)
          (g (claim_key r.state.run.workdir p) (global_task_key idx j)
            (h j other (subst (λ (w : ProjectRun). task_of w.spec j ≡ some other) same u) was p m))
  ]
    where
      own :
          task.id ≡ j
          → lookup (claim_key r'.state.run.workdir p) r'.claimed ≡ some (global_task_key idx j)
      own q =
          let again : task_of r.state.run.spec task.id ≡ some other =
            subst (λ z. task_of r.state.run.spec z ≡ some other) (sym q)
              (subst (λ (w : ProjectRun). task_of w.spec j ≡ some other) same u) in
          let one : some task ≡ some other = sym t ∙ again in
          let is : task ≡ other = cc in
          let mine : contains task.claimed_paths p ≡ true =
            subst (λ (z : TaskSpec). contains z.claimed_paths p ≡ true) (sym is) m in
          let wd = r.state.run.workdir in
          let key = global_task_key idx task.id in
          let held : lookup (claim_key wd p) (claim_all wd key task.claimed_paths r.claimed)
              ≡ some key =
            ground (
              arith,
              claim_all-lookup wd key task.claimed_paths r.claimed (claim_key wd p),
              any-claimed wd task.claimed_paths p mine,
            ) in
          rw (same, cl) (held ∙ ap (λ z. some (global_task_key idx z)) q)

  consider-Owns :
      task_of r.state.run.spec task.id ≡ some task
      → Owns idx r.state r.claimed
      → Owns idx (consider idx task r).state (consider idx task r).claimed
  consider-Owns t h =
      let g = consider-Grants idx task r in
      let same = consider-run idx task r in
      let r' = consider idx task r in
      let not_running : failed ≢ running = cc in
      elim (consider-Change idx task r) [
        | keeps s c l ↦
            Owns-keep idx r.state r'.state r.claimed r'.claimed same
              (λ j e.
                (subst (λ z. lookup j z ≡ some running) s e, λ k. g k (global_task_key idx j)))
              h
        | fails f s c l ↦
            Owns-keep idx r.state r'.state r.claimed r'.claimed same
              (λ j e. (
                (insert-running task.id failed r.state.status r'.state.status j not_running s e).0,
                λ k. g k (global_task_key idx j),
              ))
              h
        | starts l p d b o s c u ↦ start-Owns r' same s c g t h
      ]

-- `consider` over the rest of the tasks of a project.
pub consider_all-Owns :
    (idx : ℕ) (tasks : BatchSpec) (r : Round)
    → All (λ (t : TaskSpec). task_of r.state.run.spec t.id ≡ some t) tasks
    → Owns idx r.state r.claimed
    → Owns idx (consider_all idx tasks r).state (consider_all idx tasks r).claimed
      × Grants r.claimed (consider_all idx tasks r).claimed
      × ((consider_all idx tasks r).state.run ≡ r.state.run)
unfolding consider_all
consider_all-Owns idx [] r u h = (h, λ k owner e. e, refl)
consider_all-Owns idx (task ∷ tasks) r (t, u) h =
    let r' = consider idx task r in
    let same = consider-run idx task r in
    let (o, g, ru) =
      consider_all-Owns idx tasks r'
        (subst (λ (w : ProjectRun). All (λ (t : TaskSpec). task_of w.spec t.id ≡ some t) tasks)
          (sym same) u)
        (consider-Owns idx task r t h) in
    (o, λ k owner e. g k owner (consider-Grants idx task r k owner e), ru ∙ same)
