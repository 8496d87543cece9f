-- ===== src/Orchestrator/Questions/Blocked.antt =====
-- The search of `blocked_by_question` ends within its fuel and finds exactly the transitive
-- dependencies.
use role_n.Prelude.{
  ℕ, zero, suc, ◌+◌, ◌≤◌, ◌<◌, String, ◌≡◌, ◌≢◌, ◌↔◌, refl, inl, inr, Bool, false, true, Option,
  none, some, List, [], ◌∷◌, ==_iff, ==_refl, string_eq, contains, length, tally, Bool-cases, arith,
}
use role_n.Prelude.Dict.{add, contains-add}
use role_n.Orchestrator.Dag.{TaskSpec, BatchSpec, ids, task_of}
use role_n.Orchestrator.Dag.Sound.{task_of-ids}
use role_n.Orchestrator.Dag.Reject.{Depends}
use role_n.Orchestrator.Questions.{
  Walk, found, clear, no_fuel, after, walk_deps, walk_task, walk, is_found, blocked_by_question,
}
use role_n.Orchestrator.Questions.Search.{Blocked, Grows, walk-Found, walk-Clears, Depends-seen}

-- The tasks that were not seen yet.
abbrev bit : Bool → ℕ
bit true = 0
bit false = 1

abbrev unseen : List String → List String → ℕ
unseen xs seen = tally (λ x. bit (contains seen x)) xs

unseen-Grows : (xs seen end : List String) → Grows seen end → unseen xs end ≤ unseen xs seen
unseen-Grows [] seen end g = omega arith
unseen-Grows (x ∷ xs) seen end g = ground (arith, g x, unseen-Grows xs seen end g)

unseen-add :
    (xs : List String) (d : String) (seen : List String)
    → contains seen d ≡ false
    → contains xs d ≡ true
    → unseen xs (add d seen) < unseen xs seen
unseen-add [] d seen n m = cc
unseen-add (x ∷ xs) d seen n m =
    let fewer =
      unseen-Grows xs seen (add d seen) (λ y k. ground (arith, k, contains-add d y seen)) in
    ground (arith, contains-add d x seen, ==_iff x d, ==_refl d, unseen-add xs d seen n, fewer)

unseen-length : (xs : BatchSpec) → unseen (ids xs) [] ≡ length xs
unseen-length [] = refl
unseen-length (x ∷ xs) = omega (arith, unseen-length xs)

module _ (spec : BatchSpec) (pending : List String) where
  abbrev Ends : ℕ → Type 0
  Ends fuel =
      (d : String) (seen : List String)
      → unseen (ids spec) seen + 1 < fuel
      → walk fuel spec pending d seen ≢ no_fuel

  walk-stranger :
      (fuel : ℕ) (d : String) (seen : List String)
      → contains (ids spec) d ≡ false
      → 0 < fuel
      → walk fuel spec pending d seen ≢ no_fuel
  unfolding walk
  walk-stranger zero d seen m p = absurd (omega arith)
  walk-stranger (suc fuel) d seen m p = by_task (task_of spec d) refl
    where
      by_task :
          (o : Option TaskSpec)
          → task_of spec d ≡ o
          → walk_task (walk fuel spec pending) pending o seen ≢ no_fuel
      by_task none t = cc
      by_task (some task) t = absurd (ground (arith, m, task_of-ids spec d task t))

  walk_dep-Ends :
      (fuel : ℕ)
      → Ends fuel
      → (d : String) (seen : List String) → contains seen d ≡ false
      → unseen (ids spec) seen < fuel
      → walk fuel spec pending d (add d seen) ≢ no_fuel
  walk_dep-Ends fuel h d seen n l = elim (Bool-cases (contains (ids spec) d)) [
    | inl m ↦ let fewer = unseen-add (ids spec) d seen n m in h d (add d seen) (omega arith)
    | inr m ↦ walk-stranger fuel d (add d seen) m (omega arith)
  ]

  after-no_fuel :
      (w : Walk) (k : List String → Walk)
      → w ≢ no_fuel
      → ((mid : List String) → w ≡ clear mid → k mid ≢ no_fuel)
      → after w k ≢ no_fuel
  after-no_fuel found k n h = cc
  after-no_fuel (clear mid) k n h = h mid refl
  after-no_fuel no_fuel k n h = absurd (n refl)

  walk_deps-Ends :
      (fuel : ℕ)
      → Ends fuel
      → (deps seen : List String) → unseen (ids spec) seen < fuel
      → walk_deps (walk fuel spec pending) pending deps seen ≢ no_fuel
  unfolding walk_deps
  walk_deps-Ends fuel h [] seen l = cc
  walk_deps-Ends fuel h (dep ∷ deps) seen l =
      let step = λ (n : contains seen dep ≡ false).
        after-no_fuel (walk fuel spec pending dep (add dep seen))
          (walk_deps (walk fuel spec pending) pending deps) (walk_dep-Ends fuel h dep seen n l)
          (λ mid w.
            let (g, _, _) = walk-Clears spec pending fuel dep (add dep seen) mid w in
            let fewer =
              unseen-Grows (ids spec) seen mid
                (λ x m. g x (ground (arith, m, contains-add dep x seen))) in
            walk_deps-Ends fuel h deps mid (omega arith)) in
      ground (arith, step, walk_deps-Ends fuel h deps seen l)

  walk-Ends : (fuel : ℕ) → Ends fuel
  unfolding walk
  walk-Ends zero d seen l = absurd (omega arith)
  walk-Ends (suc fuel) d seen l = by_task (walk-Ends fuel) (task_of spec d)
    where
      by_task :
          Ends fuel
          → (o : Option TaskSpec) → walk_task (walk fuel spec pending) pending o seen ≢ no_fuel
      by_task h none = cc
      by_task h (some task) = walk_deps-Ends fuel h task.deps seen (omega arith)

-- A task is blocked exactly if some dependency of it, over one step or more, has a pending question,
-- whatever the graph, a cyclic one included. The search ends within a depth of two more than the
-- number of tasks, so `false` is never the answer of a search cut short.
pub blocked_iff :
    (spec : BatchSpec) (id : String) (pending : List String)
    → (blocked_by_question spec id pending ≡ true)
      ↔ ((d : String) × Depends spec d id × (contains pending d ≡ true))
unfolding blocked_by_question
blocked_iff spec id [] = (λ e. cc, λ b. cc)
blocked_iff spec id (q ∷ pending) = by_walk (walk (length spec + 2) spec (q ∷ pending) id []) refl
  where
    by_walk :
        (w : Walk)
        → walk (length spec + 2) spec (q ∷ pending) id [] ≡ w
        → (is_found w ≡ true) ↔ Blocked spec id (q ∷ pending)
    by_walk found e = (λ _. walk-Found spec (q ∷ pending) (length spec + 2) id [] e, λ _. refl)
    by_walk (clear end) e =
        let (_, x, s) = walk-Clears spec (q ∷ pending) (length spec + 2) id [] end e in
        (
          λ f. cc,
          λ b. absurd (ground (arith, b.2, (Depends-seen spec (q ∷ pending) end x b.1 s).1)),
        )
    by_walk no_fuel e =
        let few = unseen-length spec in
        absurd (walk-Ends spec (q ∷ pending) (length spec + 2) id [] (omega arith) e)
