-- ===== src/Orchestrator/Questions/Search.antt =====
-- What the search of `blocked_by_question` means when it finds a question, and when it ends without.
use role_n.Prelude.{
  ℕ, zero, suc, String, ◌≡◌, refl, subst, ◌⊎◌, inl, inr, false, true, Option, none, some, List, [],
  ◌∷◌, ◌==◌, ==_iff, ==_refl, string_eq, contains, Bool-cases, arith,
}
use role_n.Prelude.Dict.{add, contains-add}
use role_n.Orchestrator.Dag.{TaskSpec, BatchSpec, task_of}
use role_n.Orchestrator.Dag.Sound.{Dep, edge}
use role_n.Orchestrator.Dag.Reject.{Depends, direct, over}
use role_n.Orchestrator.Questions.{Walk, found, clear, no_fuel, after, walk_deps, walk_task, walk}

-- Some transitive dependency of the task has a pending question.
abbrev pub Blocked : BatchSpec → String → List String → Type 0
Blocked spec id pending = (d : String) × Depends spec d id × (contains pending d ≡ true)

after-found :
    (w : Walk) (k : List String → Walk)
    → after w k ≡ found
    → (w ≡ found) ⊎ ((seen : List String) × (w ≡ clear seen) × (k seen ≡ found))
after-found found k e = inl refl
after-found (clear seen) k e = inr (seen, refl, e)
after-found no_fuel k e = cc

after-clear :
    (w : Walk) (k : List String → Walk) {end : List String}
    → after w k ≡ clear end
    → (seen : List String) × (w ≡ clear seen) × (k seen ≡ clear end)
after-clear found k e = cc
after-clear (clear seen) k e = (seen, refl, e)
after-clear no_fuel k e = cc

module _ (spec : BatchSpec) (pending : List String) where
  abbrev Found : (String → List String → Walk) → Type 0
  Found f = (d : String) (seen : List String) → f d seen ≡ found → Blocked spec d pending

  -- A dependency with a pending question of its own, or behind it.
  abbrev Behind : List String → Type 0
  Behind deps =
      (d : String) × (contains deps d ≡ true)
      × ((contains pending d ≡ true) ⊎ Blocked spec d pending)

  Behind-cons : (dep : String) (deps : List String) → Behind deps → Behind (dep ∷ deps)
  Behind-cons dep deps (d, m, r) = (d, ground (arith, m), r)

  walk_deps-Found :
      (f : String → List String → Walk)
      → Found f
      → (deps seen : List String) → walk_deps f pending deps seen ≡ found
      → Behind deps
  unfolding walk_deps
  walk_deps-Found f h [] seen e = cc
  walk_deps-Found f h (dep ∷ deps) seen e =
      let here : contains (dep ∷ deps) dep ≡ true = ground (arith, ==_refl dep) in
      let rest = λ (s : List String). walk_deps-Found f h deps s in
      elim (Bool-cases (contains pending dep)) [
        | inl p ↦ (dep, here, inl p)
        | inr p ↦ elim (Bool-cases (contains seen dep)) [
          | inl s ↦ Behind-cons dep deps (rest seen (ground (arith, p, s)))
          | inr s ↦
              elim (after-found (f dep (add dep seen)) (walk_deps f pending deps)
                (ground (arith, p, s))) [
                  | inl w ↦ (dep, here, inr (h dep (add dep seen) w))
                  | inr (s', _, r) ↦ Behind-cons dep deps (rest s' r)
                ]
        ]
      ]

  walk_task-Found :
      (f : String → List String → Walk)
      → Found f
      → (id : String) (o : Option TaskSpec) (seen : List String) → task_of spec id ≡ o
      → walk_task f pending o seen ≡ found
      → Blocked spec id pending
  walk_task-Found f h id none seen t e = cc
  walk_task-Found f h id (some task) seen t e =
      let (d, m, r) = walk_deps-Found f h task.deps seen e in
      let dep : Dep spec d id = edge task t m in
      elim r [ inl p ↦ (d, direct dep, p) | inr (x, far, p) ↦ (x, append far dep, p) ]
    where
      append : {x y z : String} → Depends spec x y → Dep spec y z → Depends spec x z
      append (direct one) last = over _ one (direct last)
      append (over m one far) last = over m one (append far last)

  pub walk-Found : (fuel : ℕ) → Found (walk fuel spec pending)
  unfolding walk
  walk-Found zero d seen e = cc
  walk-Found (suc fuel) d seen e =
      walk_task-Found (walk fuel spec pending) (walk-Found fuel) d (task_of spec d) seen refl e

-- Every dependency of the task was seen and has no pending question.
abbrev pub Searched : BatchSpec → List String → List String → String → Type 0
Searched spec pending seen t =
    (d : String) → Dep spec d t → (contains seen d ≡ true) × (contains pending d ≡ false)

abbrev pub Grows : List String → List String → Type 0
Grows seen end = (x : String) → contains seen x ≡ true → contains end x ≡ true

module _ (spec : BatchSpec) (pending : List String) where
  -- What was seen since was searched.
  abbrev pub Explored : List String → List String → Type 0
  Explored seen end =
      (x : String) → contains end x ≡ true → (contains seen x ≡ true) ⊎ Searched spec pending end x

  Searched-Grows :
      (seen end : List String) (t : String)
      → Grows seen end
      → Searched spec pending seen t
      → Searched spec pending end t
  Searched-Grows seen end t g s d dep = let (m, p) = s d dep in (g d m, p)

  abbrev Clears : (String → List String → Walk) → Type 0
  Clears f =
      (d : String) (seen end : List String)
      → f d seen ≡ clear end
      → Grows seen end × Explored seen end × Searched spec pending end d

  -- A search through one dependency, and then through the rest.
  through :
      (dep : String) (seen mid end : List String)
      → Grows (add dep seen) mid × Explored (add dep seen) mid × Searched spec pending mid dep
      → Grows mid end
      → Explored mid end
      → Grows seen end × Explored seen end × (contains end dep ≡ true)
  through dep seen mid end (g, x, done) g' x' = (
    λ y m. g' y (g y (ground (arith, m, contains-add dep y seen))),
    λ y m. elim (x' y m) [ inr ok ↦ inr ok | inl old ↦ explored y old ],
    g' dep (g dep (ground (arith, contains-add dep dep seen, ==_refl dep))),
  )
    where
      explored :
          (y : String)
          → contains mid y ≡ true
          → (contains seen y ≡ true) ⊎ Searched spec pending end y
      explored y old = elim (x y old) [
        | inr ok ↦ inr (Searched-Grows mid end y g' ok)
        | inl new ↦ elim (Bool-cases (dep == y)) [
          | inl q ↦ inr (
              subst (Searched spec pending end) ((==_iff dep y).0 q)
                (Searched-Grows mid end dep g' done))
          | inr q ↦ inl (ground (arith, new, q, contains-add dep y seen))
        ]
      ]

  abbrev AllSeen : List String → List String → Type 0
  AllSeen deps end =
      (d : String) → contains deps d ≡ true → (contains end d ≡ true) × (contains pending d ≡ false)

  AllSeen-cons :
      (dep : String) (deps end : List String)
      → contains end dep ≡ true
      → contains pending dep ≡ false
      → AllSeen deps end
      → AllSeen (dep ∷ deps) end
  AllSeen-cons dep deps end here quiet all d m = ground (arith, m, all d, here, ==_iff dep d, quiet)

  walk_deps-Clears :
      (f : String → List String → Walk)
      → Clears f
      → (deps seen end : List String) → walk_deps f pending deps seen ≡ clear end
      → Grows seen end × Explored seen end × AllSeen deps end
  unfolding walk_deps
  walk_deps-Clears f h [] seen end e =
      let same : seen ≡ end = cc in (λ x m. rw (← same) m, λ x m. inl (rw same m), λ d m. cc)
  walk_deps-Clears f h (dep ∷ deps) seen end e =
      let quiet : contains pending dep ≡ false = ground arith in
      elim (Bool-cases (contains seen dep)) [
        | inl s ↦
            let (g, x, all) = walk_deps-Clears f h deps seen end (ground (arith, quiet, s)) in
            (g, x, AllSeen-cons dep deps end (g dep s) quiet all)
        | inr s ↦
            let run : after (f dep (add dep seen)) (walk_deps f pending deps) ≡ clear end =
              ground (arith, quiet, s) in
            let (mid, w, r) = after-clear (f dep (add dep seen)) (walk_deps f pending deps) run in
            let (g, x, all) = walk_deps-Clears f h deps mid end r in
            let (g', x', here) = through dep seen mid end (h dep (add dep seen) mid w) g x in
            (g', x', AllSeen-cons dep deps end here quiet all)
      ]

  walk_task-Clears :
      (f : String → List String → Walk)
      → Clears f
      → (id : String) (o : Option TaskSpec) (seen end : List String) → task_of spec id ≡ o
      → walk_task f pending o seen ≡ clear end
      → Grows seen end × Explored seen end × Searched spec pending end id
  walk_task-Clears f h id none seen end t e =
      let same : seen ≡ end = cc in
      (λ x m. rw (← same) m, λ x m. inl (rw same m), λ d dep. absurd (none_of d dep))
    where
      none_of : (d : String) → Dep spec d id → ⊥
      none_of d (edge task o m) = ground (arith, t, o)
  walk_task-Clears f h id (some task) seen end t e =
      let (g, x, all) = walk_deps-Clears f h task.deps seen end e in
      (g, x, λ d dep. all d (named d dep))
    where
      named : (d : String) → Dep spec d id → contains task.deps d ≡ true
      named d (edge other o m) = ground (arith, t, o, m)

  pub walk-Clears : (fuel : ℕ) → Clears (walk fuel spec pending)
  unfolding walk
  walk-Clears zero d seen end e = cc
  walk-Clears (suc fuel) d seen end e =
      walk_task-Clears (walk fuel spec pending) (walk-Clears fuel) d (task_of spec d) seen end refl
        e

  -- A search from nothing that ends without a find has seen all transitive dependencies.
  pub Depends-seen :
      (end : List String)
      → Explored [] end
      → {d t : String} → Depends spec d t
      → Searched spec pending end t
      → (contains end d ≡ true) × (contains pending d ≡ false)
  Depends-seen end x (direct dep) s = s _ dep
  Depends-seen end x (over m dep far) s = elim (x m (Depends-seen end x far s).0) [
    | inl never ↦ cc
    | inr ok ↦ ok _ dep
  ]
