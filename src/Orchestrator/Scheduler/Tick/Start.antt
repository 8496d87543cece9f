-- ===== src/Orchestrator/Scheduler/Tick/Start.antt =====
-- What one look at a task does, in scheduler.rs: nothing that counts, a failure, or a start.
use role_n.Prelude.{
  ℕ, ◌-◌, ◌<◌, String, Bool, true, false, not, ◌||◌, ◌≡◌, ◌≢◌, refl, subst, ◌==◌, ==_iff, ==_refl,
  none, inl, inr, Option, some, List, [], ◌∷◌, if◌then◌else◌, eqb, Bool-cases, contains, string_eq,
  arith, all,
}
use role_n.Prelude.Dict.{lookup, insert, discard, lookup-insert}
use role_n.Orchestrator.Dag.{TaskSpec}
use role_n.Orchestrator.Dag.Reject.{Depends}
use role_n.Orchestrator.Questions.{blocked_by_question}
use role_n.Orchestrator.Questions.Blocked.{blocked_iff}
use role_n.Orchestrator.Scheduler.{
  TaskStatus, pending, running, done, failed, global_task_key, TaskKey, Claims, claim_key,
}
use role_n.Orchestrator.Scheduler.Tick.{
  Round, is_pending, is_done, is_some, any_failed, all_done, overlaps, claim_all, consider,
  consider_pending, try_claim, start_task, wait_question, dep_failed,
}

-- The effect of a look on the status map, the claims and the slots.
pub data Change (idx : ℕ) (task : TaskSpec) (r r' : Round) : Type 0 where
  keeps :
      r'.state.status ≡ r.state.status
      → r'.claimed ≡ r.claimed
      → r'.slots ≡ r.slots
      → Change idx task r r'
  fails :
      any_failed task r.state ≡ true
      → r'.state.status ≡ insert task.id failed r.state.status
      → r'.claimed ≡ r.claimed
      → r'.slots ≡ r.slots
      → Change idx task r r'
  starts :
      0 < r.slots
      → lookup task.id r.state.status ≡ some pending
      → all_done task r.state ≡ true
      → blocked_by_question r.state.run.spec task.id r.state.pending_questions ≡ false
      → overlaps r.state.run.workdir task.claimed_paths r.claimed ≡ false
      → r'.state.status ≡ insert task.id running r.state.status
      → r'.claimed
        ≡ claim_all r.state.run.workdir (global_task_key idx task.id) task.claimed_paths r.claimed
      → r'.slots ≡ r.slots - 1
      → Change idx task r r'

pending-some : (o : Option TaskStatus) → is_pending o ≡ true → o ≡ some pending
pending-some o e = ground arith

wait_question-Change :
    (idx : ℕ) (task : TaskSpec) (r : Round) → Change idx task r (wait_question task r)
unfolding wait_question
wait_question-Change idx task r = keeps (ground arith) (ground arith) (ground arith)

try_claim-Change :
    (idx : ℕ) (task : TaskSpec) (r : Round) (reported : List String)
    → 0 < r.slots
    → lookup task.id r.state.status ≡ some pending
    → all_done task r.state ≡ true
    → blocked_by_question r.state.run.spec task.id r.state.pending_questions ≡ false
    → Change idx task r (
        try_claim idx task
          (record r { state = record r.state { question_wait_reported = reported } }))
unfolding try_claim start_task
try_claim-Change idx task r reported l p d b =
    elim (Bool-cases (overlaps r.state.run.workdir task.claimed_paths r.claimed)) [
      | inl o ↦ keeps (ground (arith, o)) (ground (arith, o)) (ground (arith, o))
      | inr o ↦ starts l p d b o (ground (arith, o)) (ground (arith, o)) (ground (arith, o))
    ]

consider_pending-Change :
    (idx : ℕ) (task : TaskSpec) (r : Round)
    → 0 < r.slots
    → lookup task.id r.state.status ≡ some pending
    → Change idx task r (consider_pending idx task r)
unfolding consider_pending dep_failed
consider_pending-Change idx task r l p =
    by_failed (any_failed task r.state) refl (all_done task r.state) refl
      (blocked_by_question r.state.run.spec task.id r.state.pending_questions) refl
  where
    reported : List String
    reported = discard task.id r.state.question_wait_reported

    by_failed :
        (f : Bool)
        → any_failed task r.state ≡ f
        → (d : Bool) → all_done task r.state ≡ d
        → (b : Bool) → blocked_by_question r.state.run.spec task.id r.state.pending_questions ≡ b
        → Change idx task r (
            if f
            then dep_failed task r
            else if not d
            then r
            else if b
            then wait_question task r
            else try_claim idx task
                (record r { state = record r.state { question_wait_reported = reported } }))
    by_failed true e d f b g = fails e refl refl refl
    by_failed false e false f b g = keeps refl refl refl
    by_failed false e true f true g = wait_question-Change idx task r
    by_failed false e true f false g = try_claim-Change idx task r reported l p f g

pub consider-Change :
    (idx : ℕ) (task : TaskSpec) (r : Round) → Change idx task r (consider idx task r)
unfolding consider
consider-Change idx task r =
    by_test (eqb r.slots 0 || not (is_pending (lookup task.id r.state.status))) refl
  where
    by_test :
        (t : Bool)
        → (eqb r.slots 0 || not (is_pending (lookup task.id r.state.status))) ≡ t
        → Change idx task r (if t then r else consider_pending idx task r)
    by_test true e = keeps refl refl refl
    by_test false e =
        consider_pending-Change idx task r (ground (arith, e))
          (pending-some (lookup task.id r.state.status) (ground (arith, e)))

pub consider-run :
    (idx : ℕ) (task : TaskSpec) (r : Round) → (consider idx task r).state.run ≡ r.state.run
unfolding consider consider_pending dep_failed wait_question try_claim start_task
consider-run idx task r = ground arith

all-contains :
    (p : String → Bool) (xs : List String) (x : String)
    → all p xs ≡ true
    → contains xs x ≡ true
    → p x ≡ true
all-contains p [] x a m = cc
all-contains p (y ∷ ys) x a m = elim (Bool-cases (y == x)) [
  | inl s ↦ subst (λ z. p z ≡ true) ((==_iff y x).0 s) (ground (arith, a))
  | inr s ↦ all-contains p ys x (ground (arith, a)) (ground (arith, m, s))
]

done-some : (o : Option TaskStatus) → is_done o ≡ true → o ≡ some done
done-some o e = ground arith

free-none : (o : Option TaskKey) → is_some o ≡ false → o ≡ none
free-none o e = ground arith

pub overlaps-free :
    (workdir : String) (paths : List String) (claimed : Claims) (p : String)
    → overlaps workdir paths claimed ≡ false
    → contains paths p ≡ true
    → lookup (claim_key workdir p) claimed ≡ none
overlaps-free workdir [] claimed p o m = cc
overlaps-free workdir (q ∷ paths) claimed p o m = elim (Bool-cases (q == p)) [
  | inl s ↦
      subst (λ z. lookup (claim_key workdir z) claimed ≡ none) ((==_iff q p).0 s)
        (free-none (lookup (claim_key workdir q) claimed) (ground (arith, o)))
  | inr s ↦ overlaps-free workdir paths claimed p (ground (arith, o)) (ground (arith, m, s))
]

-- A look at a task turns it running only if a slot was free and the task was pending; every
-- dependency of it was done; no dependency, over one step or more, had a pending question; and none
-- of the paths that it claims was claimed. It then takes one slot.
pub started_ready :
    (idx : ℕ) (task : TaskSpec) (r : Round)
    → lookup task.id r.state.status ≢ some running
    → lookup task.id (consider idx task r).state.status ≡ some running
    → (0 < r.slots)
      × ((consider idx task r).slots ≡ r.slots - 1)
      × (lookup task.id r.state.status ≡ some pending)
      × ((d : String) → contains task.deps d ≡ true → lookup d r.state.status ≡ some done)
      × ((d : String)
          → Depends r.state.run.spec d task.id
          → contains r.state.pending_questions d ≡ false)
      × ((p : String)
          → contains task.claimed_paths p ≡ true
          → lookup (claim_key r.state.run.workdir p) r.claimed ≡ none)
started_ready idx task r n e = elim (consider-Change idx task r) [
  | keeps s c l ↦ absurd (n (subst (λ m. lookup task.id m ≡ some running) s e))
  | fails f s c l ↦
      absurd
        (ground (arith, e, s, lookup-insert task.id task.id failed r.state.status, ==_refl task.id))
  | starts l p d b o s c u ↦ (
    l,
    u,
    p,
    λ x m.
        done-some (lookup x r.state.status)
          (all-contains (λ y. is_done (lookup y r.state.status)) task.deps x d m),
    λ x far. elim (Bool-cases (contains r.state.pending_questions x)) [
      | inr q ↦ q
      | inl q ↦ absurd (
          ground (
            arith,
            b,
            (blocked_iff r.state.run.spec task.id r.state.pending_questions).1 (x, far, q),
          ))
    ],
    λ p m. overlaps-free r.state.run.workdir task.claimed_paths r.claimed p o m,
  )
]
