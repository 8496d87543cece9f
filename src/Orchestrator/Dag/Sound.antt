-- ===== src/Orchestrator/Dag/Sound.antt =====
-- A graph that `validate_dag` accepts has no cycle.
use mathlib.Core.WellFounded.{Acc}
use role_n.Prelude.{
  ℕ, zero, suc, String, ◌≡◌, refl, subst, Bool-cases, ==_refl, inl, inr, false, true, Option, none,
  some, List, [], ◌∷◌, if◌then◌else◌, ◌==◌, ==_iff, string_eq, contains, length, arith,
}
use role_n.Prelude.Dict.{lookup, insert, lookup-insert}
use role_n.Orchestrator.Dag.{
  TaskSpec, BatchSpec, task_of, Result, ok, err, ◌>>=◌, Color, white, grey, black, Colors, color_of,
  ids, has_duplicate, unknown_dep, check_deps, cycle_check, validate_dag, visit_all, expand,
  visit_color, visit,
}

-- The task `t` names `d` among its dependencies.
pub data Dep (spec : BatchSpec) (d t : String) : Type 0 where
  edge : (task : TaskSpec) → task_of spec t ≡ some task → contains task.deps d ≡ true → Dep spec d t

pub color_of-insert :
    (k j : String) (c : Color) (colors : Colors)
    → color_of (insert k c colors) j ≡ (if k == j then c else color_of colors j)
color_of-insert k j c colors = rw lookup-insert (ground arith)

pub >>=-ok :
    {A B : Type 0} (run : Result A) (next : A → Result B) {last : B}
    → (run >>= next) ≡ ok last
    → (mid : A) × (run ≡ ok mid) × (next mid ≡ ok last)
>>=-ok (ok mid) next e = (mid, refl, e)
>>=-ok (err flt) next e = cc

-- Every finished task has dependencies only in a well-founded way.
abbrev AllAcc : BatchSpec → Colors → Type 0
AllAcc spec c = (x : String) → color_of c x ≡ black → Acc (Dep spec) x

abbrev Keeps : Colors → Colors → Type 0
Keeps c c' = (x : String) → color_of c x ≡ black → color_of c' x ≡ black

-- What a search from `d` does to the colours, when it succeeds.
abbrev Visits : BatchSpec → (String → Colors → Result Colors) → Type 0
Visits spec f =
    (d : String) (c c' : Colors)
    → AllAcc spec c
    → f d c ≡ ok c'
    → AllAcc spec c' × Keeps c c' × (color_of c' d ≡ black)

Acc-deps :
    (spec : BatchSpec) (id : String) (task : TaskSpec)
    → task_of spec id ≡ some task
    → ((d : String) → contains task.deps d ≡ true → Acc (Dep spec) d)
    → Acc (Dep spec) id
Acc-deps spec id task t h = Acc.intro id below
  where
    below : (d : String) → Dep spec d id → Acc (Dep spec) d
    below d (edge other o m) = h d (ground (arith, t, o, m))

module _ (spec : BatchSpec) (f : String → Colors → Result Colors) (h : Visits spec f) where
  visit_all_sound :
      (ds : List String) (c c' : Colors)
      → AllAcc spec c
      → visit_all f ds c ≡ ok c'
      → AllAcc spec c' × Keeps c c' × ((d : String) → contains ds d ≡ true → color_of c' d ≡ black)
  unfolding visit_all
  visit_all_sound [] c c' a e =
      let same : c ≡ c' = cc in (subst (AllAcc spec) same a, λ x b. rw (← same) b, λ d n. cc)
  visit_all_sound (d ∷ ds) c c' a e =
      let (c₁, one, rest) = >>=-ok (f d c) (visit_all f ds) e in
      let (a₁, k₁, b₁) = h d c c₁ a one in
      let (a₂, k₂, b₂) = visit_all_sound ds c₁ c' a₁ rest in
      (
        a₂,
        λ x b. k₂ x (k₁ x b),
        λ x m. elim (Bool-cases (d == x)) [
          | inl s ↦ k₂ x (subst (λ z. color_of c₁ z ≡ black) ((==_iff d x).0 s) b₁)
          | inr s ↦ b₂ x (ground arith)
        ],
      )

  expand_sound :
      (id : String) (o : Option TaskSpec) (c c' : Colors)
      → task_of spec id ≡ o
      → color_of c id ≡ white
      → AllAcc spec c
      → expand f id o c ≡ ok c'
      → AllAcc spec c' × Keeps c c' × (color_of c' id ≡ black)
  unfolding expand
  expand_sound id none c c' t w a e = cc
  expand_sound id (some task) c c' t w a e =
      let (c₁, deps, rest) =
        >>=-ok (visit_all f task.deps (insert id grey c)) (λ c₁. ok (insert id black c₁)) e in
      let (a₁, k₁, b₁) =
        visit_all_sound task.deps (insert id grey c) c₁
          (λ x b. a x (ground (arith, b, color_of-insert id x grey c))) deps in
      let acc = Acc-deps spec id task t (λ d m. a₁ d (b₁ d m)) in
      let same : insert id black c₁ ≡ c' = cc in
      (
        λ x b. elim (Bool-cases (id == x)) [
          | inl s ↦ subst (Acc (Dep spec)) ((==_iff id x).0 s) acc
          | inr s ↦ a₁ x (ground (arith, b, s, same, color_of-insert id x black c₁))
        ],
        λ x b. rw (← same) (
            ground (
              arith,
              color_of-insert id x black c₁,
              k₁ x,
              color_of-insert id x grey c,
              ==_iff id x,
            )),
        rw (← same) (ground (arith, color_of-insert id id black c₁, ==_refl id)),
      )

visit_sound : (fuel : ℕ) (spec : BatchSpec) → Visits spec (visit fuel spec)
unfolding visit
visit_sound zero spec d c c' a e = cc
visit_sound (suc fuel) spec d c c' a e = by_color (visit_sound fuel spec) (color_of c d) refl e
  where
    by_color :
        Visits spec (visit fuel spec)
        → (color : Color) → color_of c d ≡ color
        → visit_color (visit fuel spec) spec d color c ≡ ok c'
        → AllAcc spec c' × Keeps c c' × (color_of c' d ≡ black)
    by_color rec white w q =
        expand_sound spec (visit fuel spec) rec d (task_of spec d) c c' refl w a q
    by_color rec grey w q = cc
    by_color rec black w q =
        let same : c ≡ c' = cc in (subst (AllAcc spec) same a, λ x b. rw (← same) b, rw (← same) w)

pub task_of-ids :
    (spec : BatchSpec) (t : String) (task : TaskSpec)
    → task_of spec t ≡ some task
    → contains (ids spec) t ≡ true
task_of-ids [] t task e = cc
task_of-ids (u ∷ spec) t task e = ground (arith, task_of-ids spec t task)

unknown_dep-none :
    (known ds : List String) (d : String)
    → unknown_dep known ds ≡ none
    → contains ds d ≡ true
    → contains known d ≡ true
unfolding unknown_dep
unknown_dep-none known [] d e m = cc
unknown_dep-none known (x ∷ ds) d e m = ground (arith, ==_iff x d, unknown_dep-none known ds d)

pub check_deps_ok :
    (known : List String) (spec : BatchSpec) (t d : String) (task : TaskSpec)
    → check_deps known spec ≡ ok tt
    → task_of spec t ≡ some task
    → contains task.deps d ≡ true
    → contains known d ≡ true
unfolding check_deps
check_deps_ok known [] t d task e f m = cc
check_deps_ok known (u ∷ spec) t d task e f m =
    ground (arith, check_deps_ok known spec t d task, unknown_dep-none known u.deps d)

-- The three checks of an accepted batch.
validate_dag-stages :
    (spec : BatchSpec)
    → validate_dag spec ≡ ok tt
    → (has_duplicate (ids spec) ≡ false)
      × (check_deps (ids spec) spec ≡ ok tt)
      × (c : Colors) × (cycle_check spec ≡ ok c)
unfolding validate_dag
validate_dag-stages spec e =
    let unique : has_duplicate (ids spec) ≡ false = ground arith in
    let body : (do _ ← check_deps (ids spec) spec; _ ← cycle_check spec; ok tt) ≡ ok tt =
      ground (arith, unique) in
    let (_, known, rest) =
      >>=-ok (check_deps (ids spec) spec) (λ _. do _ ← cycle_check spec; ok tt) body in
    let (c, run, _) = >>=-ok (cycle_check spec) (λ _. ok tt) rest in (unique, known, c, run)

-- A batch that `validate_dag` accepts has no task id twice, every dependency of a task is a task of
-- the batch, and the dependency relation is well-founded: no task depends on itself, over any
-- number of steps.
pub validate_dag_sound :
    (spec : BatchSpec)
    → validate_dag spec ≡ ok tt
    → (has_duplicate (ids spec) ≡ false)
      × ((d t : String) → Dep spec d t → contains (ids spec) d ≡ true)
      × ((t : String) → Acc (Dep spec) t)
unfolding cycle_check
validate_dag_sound spec e =
    let (unique, known, c, run) = validate_dag-stages spec e in
    let (a, _, done) =
      visit_all_sound spec (visit (suc (length spec)) spec) (visit_sound (suc (length spec)) spec)
        (ids spec) [] c (λ x b. absurd (unfold lookup in ground arith)) run in
    (
      unique,
      λ d t r. known_dep known r,
      λ t. elim (Bool-cases (contains (ids spec) t)) [
        | inl m ↦ a t (done t m)
        | inr m ↦ Acc.intro t (λ d r. absurd (not_task m r))
      ],
    )
  where
    known_dep :
        {d t : String}
        → check_deps (ids spec) spec ≡ ok tt
        → Dep spec d t
        → contains (ids spec) d ≡ true
    known_dep {d} {t} k (edge task f m) = check_deps_ok (ids spec) spec t d task k f m

    not_task : {d t : String} → contains (ids spec) t ≡ false → Dep spec d t → ⊥
    not_task {d} {t} m (edge task f n) = ground (arith, m, task_of-ids spec t task f)
