-- ===== src/Orchestrator/Scheduler/Tick/Held.antt =====
-- A tick, a harvest and a worker of scheduler.rs keep the claims of the running tasks.
use role_n.Prelude.{
  ℕ, zero, suc, ◌+◌, ◌%◌, ◌^◌, String, ◌≡◌, ◌≢◌, ◌⊎◌, ◌-◌, refl, sym, ◌∙◌, subst, ap, inl, inr,
  Option, none, some, List, [], ◌∷◌, eqb, ==_iff, Bool-cases, string_eq, arith, get_elem?, length,
  All,
}
use role_n.Prelude.Dict.{lookup}
use role_n.Orchestrator.Dag.{TaskSpec, task_of}
use role_n.Orchestrator.Scheduler.{
  running, ProjectRun, ProjectState, TaskKey, key_eq, Claims, global_task_key, retain,
}
use role_n.Orchestrator.Scheduler.Harvest.{Settles}
use role_n.Orchestrator.Scheduler.Tick.{
  Round, Board, Batch, consider_all, poll, poll_dir, set_at, inspect, inspect_state, inspect_all,
  tick, running_total,
}
use role_n.Orchestrator.Dag.Unique.{Unique}
use role_n.Orchestrator.Scheduler.Tick.Exclusive.{
  Owns, Owns-keep, Owns-Grants, insert-running, consider_all-Owns,
}

get_elem?-set_at :
    {A : Type 0} (i j : ℕ) (a x : A) (xs : List A)
    → get_elem? (set_at i a xs) j ≡ some x
    → ((j ≡ i) × (a ≡ x)) ⊎ ((j ≢ i) × (get_elem? xs j ≡ some x))
unfolding set_at
get_elem?-set_at i j a x [] e = cc
get_elem?-set_at zero zero a x (y ∷ ys) e = inl (refl, cc)
get_elem?-set_at zero (suc j) a x (y ∷ ys) e = inr (omega arith, e)
get_elem?-set_at (suc i) zero a x (y ∷ ys) e = inr (omega arith, e)
get_elem?-set_at (suc i) (suc j) a x (y ∷ ys) e = elim (get_elem?-set_at i j a x ys e) [
  | inl (s, q) ↦ inl (omega arith, q)
  | inr (n, q) ↦ inr (omega arith, q)
]

-- All running tasks of all projects hold their paths.
abbrev pub AllOwn : List ProjectState → Claims → Type 0
AllOwn states c =
    (idx : ℕ) (s : ProjectState) → get_elem? states idx ≡ some s → Owns idx s c × Unique s.run.spec

AllOwn-set_at :
    (states : List ProjectState) (c c' : Claims) (idx : ℕ) (s s' : ProjectState)
    → get_elem? states idx ≡ some s
    → s'.run ≡ s.run
    → ((i : ℕ) (t : ProjectState) → i ≢ idx → Owns i t c → Owns i t c')
    → Owns idx s' c'
    → AllOwn states c
    → AllOwn (set_at idx s' states) c'
AllOwn-set_at states c c' idx s s' g same others own h i t e =
    elim (get_elem?-set_at idx i s' t states e) [
      | inl (q, w) ↦ (
        subst (λ z. Owns z t c') (sym q) (subst (λ z. Owns idx z c') w own),
        subst (λ (z : ProjectState). Unique z.run.spec) w
            (subst (λ (z : ProjectRun). Unique z.spec) (sym same) (h idx s g).1),
      )
      | inr (n, w) ↦ (others i t n (h i t w).0, (h i t w).1)
    ]

poll-keeps :
    (read : String → List String) (s : ProjectState)
    → ((poll read s).run ≡ s.run) × ((poll read s).status ≡ s.status)
unfolding poll poll_dir
poll-keeps read s = (ground arith, ground arith)

inspect_state-AllOwn :
    (read : String → List String) (idx : ℕ) (o : Option ProjectState) (b : Board)
    → get_elem? b.states idx ≡ o
    → AllOwn b.states b.claimed
    → AllOwn (inspect_state read idx o b).states (inspect_state read idx o b).claimed
unfolding inspect_state
inspect_state-AllOwn read idx none b e h = h
inspect_state-AllOwn read idx (some s) b e h =
    let (run, status) = poll-keeps read s in
    let r : Round = record {
      slots = b.slots;
      state = poll read s;
      claimed = b.claimed;
      events = b.events;
    } in
    let (own, unique) = h idx s e in
    let polled =
      Owns-keep idx s (poll read s) b.claimed b.claimed run
        (λ j q. (subst (λ z. lookup j z ≡ some running) status q, λ k w. w)) own in
    let tasks =
      subst (λ (w : ProjectRun). All (λ (t : TaskSpec). task_of w.spec t.id ≡ some t) s.run.spec)
        (sym run) unique in
    let (o, g, same) = consider_all-Owns idx s.run.spec r tasks polled in
    let end = consider_all idx s.run.spec r in
    AllOwn-set_at b.states b.claimed end.claimed idx s end.state e (same ∙ run)
      (λ i t n w. Owns-Grants i t b.claimed end.claimed g w) o h

inspect-AllOwn :
    (read : String → List String) (idx : ℕ) (b : Board)
    → AllOwn b.states b.claimed
    → AllOwn (inspect read idx b).states (inspect read idx b).claimed
unfolding inspect
inspect-AllOwn read idx b h = elim (Bool-cases (eqb b.slots 0)) [
  | inl z ↦ rw z h
  | inr z ↦ rw z (inspect_state-AllOwn read idx (get_elem? b.states idx) b refl h)
]

inspect_all-AllOwn :
    (read : String → List String) (rr offset rounds : ℕ) (b : Board)
    → AllOwn b.states b.claimed
    → AllOwn
        (inspect_all read rr offset rounds b).states
        (inspect_all read rr offset rounds b).claimed
unfolding inspect_all
inspect_all-AllOwn read rr offset zero b h = h
inspect_all-AllOwn read rr offset (suc rounds) b h =
    let idx = (rr + offset) % 2 ^ 64 % length b.states in
    inspect_all-AllOwn read rr (offset + 1) rounds (inspect read idx b)
      (inspect-AllOwn read idx b h)

pub tick-AllOwn :
    (read : String → List String) (max_parallel : ℕ) (b : Batch)
    → AllOwn b.states b.claimed
    → AllOwn (tick read max_parallel b).0.states (tick read max_parallel b).0.claimed
unfolding tick
tick-AllOwn read max_parallel b h =
    elim (Bool-cases (eqb (max_parallel - running_total b.states) 0)) [
      | inl z ↦ rw z h
      | inr z ↦ rw z (
          inspect_all-AllOwn read b.round_robin 0 (length b.states)
            (record {
              slots = max_parallel - running_total b.states;
              states = b.states;
              claimed = b.claimed;
              events = [];
            })
            h)
    ]

-- `retain` drops the claims of one task only.
retain-lookup :
    (key other : TaskKey) (c : Claims) (k : String)
    → other ≢ key
    → lookup k c ≡ some other
    → lookup k (retain key c) ≡ some other
unfolding lookup
retain-lookup key other [] k n e = cc
retain-lookup key other ((j, owner) ∷ c) k n e =
    ground (arith, retain-lookup key other c k n, ==_iff owner key)

pub harvest-AllOwn :
    (idx : ℕ) (id : String) (states : List ProjectState) (c c' : Claims) (s s' : ProjectState)
    → get_elem? states idx ≡ some s
    → Settles idx id s s' c c'
    → AllOwn states c
    → AllOwn (set_at idx s' states) c'
harvest-AllOwn idx id states c c' s s' g r h =
    AllOwn-set_at states c c' idx s s' g r.run
      (λ i t n.
        Owns-keep i t t c c' refl (λ j q.
          (q, λ k w. freed k (global_task_key i j) (λ e. n (ap (λ (x : TaskKey). x.0) e)) w)))
      (Owns-keep idx s s' c c' r.run
        (λ j q.
          let (was, differs) =
            insert-running id r.verdict s.status s'.status j r.settled r.status q in
          (
            was,
            λ k w. freed k (global_task_key idx j) (λ e. differs (ap (λ (x : TaskKey). x.1) e)) w,
          ))
        (h idx s g).0)
      h
  where
    freed :
        (k : String) (other : TaskKey)
        → other ≢ global_task_key idx id
        → lookup k c ≡ some other
        → lookup k c' ≡ some other
    freed k other ne w =
        subst (λ z. lookup k z ≡ some other) (sym r.claims)
          (retain-lookup (global_task_key idx id) other c k ne w)

-- A worker or a drain leaves the status and the claims alone.
pub same-AllOwn :
    (idx : ℕ) (states : List ProjectState) (c : Claims) (s s' : ProjectState)
    → get_elem? states idx ≡ some s
    → s'.run ≡ s.run
    → s'.status ≡ s.status
    → AllOwn states c
    → AllOwn (set_at idx s' states) c
same-AllOwn idx states c s s' g run status h =
    AllOwn-set_at states c c idx s s' g run (λ i t n o. o)
      (Owns-keep idx s s' c c run
        (λ j q. (subst (λ z. lookup j z ≡ some running) status q, λ k w. w)) (h idx s g).0)
      h
