-- ===== src/Orchestrator/Dag/Reject.antt =====
-- What a rejection by `validate_dag` means: the search ends within its fuel, never panics, and
-- reports a cycle only where there is one.
use mathlib.Core.List.{Memᴰ}
use role_n.Prelude.{
  ℕ, zero, suc, ◌≤◌, ◌<◌, String, ◌≡◌, ◌≢◌, refl, subst, ◌⊎◌, inl, inr, false, true, Option, none,
  some, List, [], ◌∷◌, ◌==◌, ==_iff, ==_refl, string_eq, contains, length, tally, Bool-cases, arith,
}
use role_n.Prelude.Dict.{lookup, insert}
use role_n.Orchestrator.Dag.{
  TaskSpec, BatchSpec, ids, task_of, Fault, duplicate, unknown, cycle, Result, ok, err, ◌>>=◌,
  Color, white, grey, black, Colors, color_of, has_duplicate, unknown_dep, check_deps, cycle_check,
  validate_dag, visit_all, expand, visit_color, visit,
}
use role_n.Orchestrator.Dag.Sound.{Dep, edge, color_of-insert, check_deps_ok, >>=-ok}

-- `t` depends on `d` over one step or more.
pub data Depends (spec : BatchSpec) : String → String → Type 0 where
  direct : {d t : String} → Dep spec d t → Depends spec d t
  over : {d t : String} (m : String) → Dep spec d m → Depends spec m t → Depends spec d t

-- No task turns white again, and none is left grey that was not.
abbrev Fades : Colors → Colors → Type 0
Fades c c' =
    (x : String)
    → (color_of c' x ≡ white → color_of c x ≡ white) × (color_of c' x ≡ grey → color_of c x ≡ grey)

Fades-trans : (a b c : Colors) → Fades a b → Fades b c → Fades a c
Fades-trans a b c f g x = (λ w. (f x).0 ((g x).0 w), λ w. (f x).1 ((g x).1 w))

abbrev AllFade : (String → Colors → Result Colors) → Type 0
AllFade f = (d : String) (c c' : Colors) → f d c ≡ ok c' → Fades c c'

visit_all-Fades :
    (f : String → Colors → Result Colors)
    → AllFade f
    → (ds : List String) (c c' : Colors) → visit_all f ds c ≡ ok c'
    → Fades c c'
unfolding visit_all
visit_all-Fades f h [] c c' e =
    let same : c ≡ c' = cc in subst (Fades c) same (λ x. (λ w. w, λ w. w))
visit_all-Fades f h (d ∷ ds) c c' e =
    let (b, one, rest) = >>=-ok (f d c) (visit_all f ds) e in
    Fades-trans c b c' (h d c b one) (visit_all-Fades f h ds b c' rest)

expand-Fades :
    (f : String → Colors → Result Colors)
    → AllFade f
    → (id : String) (o : Option TaskSpec) (c c' : Colors) → color_of c id ≡ white
    → expand f id o c ≡ ok c'
    → Fades c c'
unfolding expand
expand-Fades f h id none c c' w e = cc
expand-Fades f h id (some task) c c' w e =
    let (b, deps, rest) =
      >>=-ok (visit_all f task.deps (insert id grey c)) (λ b. ok (insert id black b)) e in
    let fade = visit_all-Fades f h task.deps (insert id grey c) b deps in
    let same : insert id black b ≡ c' = cc in
    subst (Fades c) same (λ x.
      ground
        (arith, fade x, ==_iff id x, color_of-insert id x black b, color_of-insert id x grey c))

visit-Fades : (fuel : ℕ) (spec : BatchSpec) → AllFade (visit fuel spec)
unfolding visit
visit-Fades zero spec d c c' e = cc
visit-Fades (suc fuel) spec d c c' e = by_color (visit-Fades fuel spec) (color_of c d) refl e
  where
    by_color :
        AllFade (visit fuel spec)
        → (color : Color) → color_of c d ≡ color
        → visit_color (visit fuel spec) spec d color c ≡ ok c'
        → Fades c c'
    by_color rec white w q = expand-Fades (visit fuel spec) rec d (task_of spec d) c c' w q
    by_color rec grey w q = cc
    by_color rec black w q = let same : c ≡ c' = cc in subst (Fades c) same (λ x. (λ w. w, λ w. w))

-- The tasks of a batch that are still white.
abbrev is_white : Color → ℕ
is_white white = 1
is_white _ = 0

abbrev whites : List String → Colors → ℕ
whites xs c = tally (λ x. is_white (color_of c x)) xs

whites-Fades : (xs : List String) (c c' : Colors) → Fades c c' → whites xs c' ≤ whites xs c
whites-Fades [] c c' f = omega arith
whites-Fades (x ∷ xs) c c' f = ground (arith, f x, whites-Fades xs c c' f)

whites-mark :
    (xs : List String) (id : String) (c : Colors) → whites xs (insert id grey c) ≤ whites xs c
whites-mark [] id c = omega arith
whites-mark (x ∷ xs) id c = ground (arith, color_of-insert id x grey c, whites-mark xs id c)

whites-grey :
    (xs : List String) (id : String) (c : Colors)
    → color_of c id ≡ white
    → contains xs id ≡ true
    → whites xs (insert id grey c) < whites xs c
whites-grey [] id c w m = cc
whites-grey (x ∷ xs) id c w m = elim (Bool-cases (x == id)) [
  | inl s ↦
      let same : x ≡ id = (==_iff x id).0 s in
      let marked : color_of (insert id grey c) x ≡ grey =
        rw same (ground (arith, color_of-insert id id grey c, ==_refl id)) in
      let was : color_of c x ≡ white = rw same w in ground (arith, marked, was, whites-mark xs id c)
  | inr s ↦ ground (arith, color_of-insert id x grey c, whites-mark xs id c, whites-grey xs id c w)
]

>>=-err :
    {A B : Type 0} (m : Result A) (f : A → Result B) {x : Fault}
    → (m >>= f) ≡ err x
    → (m ≡ err x) ⊎ ((a : A) × (m ≡ ok a) × (f a ≡ err x))
>>=-err (ok a) f e = inr (a, refl, e)
>>=-err (err y) f e = inl (ground (arith, e))

abbrev pub Cyclic : BatchSpec → Fault → Type 0
Cyclic spec flt = (x : String) × (flt ≡ cycle x) × Depends spec x x

-- Where a search from `d` may start: at a task of the batch, on which every grey task depends.
abbrev Starts : BatchSpec → String → Colors → Type 0
Starts spec d c =
    (contains (ids spec) d ≡ true) × ((x : String) → color_of c x ≡ grey → Depends spec d x)

abbrev FailsOnCycle : BatchSpec → ℕ → Type 0
FailsOnCycle spec fuel =
    (d : String) (c : Colors) (flt : Fault)
    → Starts spec d c
    → whites (ids spec) c < fuel
    → visit fuel spec d c ≡ err flt
    → Cyclic spec flt

visit_all_err :
    (spec : BatchSpec) (fuel : ℕ)
    → FailsOnCycle spec fuel
    → (ds : List String) (c : Colors) (flt : Fault)
    → ((d : String) → contains ds d ≡ true → Starts spec d c)
    → whites (ids spec) c < fuel
    → visit_all (visit fuel spec) ds c ≡ err flt
    → Cyclic spec flt
unfolding visit_all
visit_all_err spec fuel h [] c flt starts w e = cc
visit_all_err spec fuel h (d ∷ ds) c flt starts w e =
    elim (>>=-err (visit fuel spec d c) (visit_all (visit fuel spec) ds) e) [
      | inl q ↦ h d c flt (starts d (ground (arith, ==_refl d))) w q
      | inr (b, q, rest) ↦
          let fade = visit-Fades fuel spec d c b q in
          let fewer = whites-Fades (ids spec) c b fade in
          visit_all_err spec fuel h ds b flt
            (λ x m.
              let (known, greys) = starts x (ground (arith, m)) in
              (known, λ y g. greys y ((fade y).1 g)))
            (omega arith) rest
    ]

ids-task_of : (spec : BatchSpec) (t : String) → contains (ids spec) t ≡ true → task_of spec t ≢ none
ids-task_of [] t m = cc
ids-task_of (u ∷ spec) t m = ground (arith, ids-task_of spec t)

abbrev AllKnown : BatchSpec → Type 0
AllKnown spec = (d t : String) → Dep spec d t → contains (ids spec) d ≡ true

visit_err : (spec : BatchSpec) → AllKnown spec → (fuel : ℕ) → FailsOnCycle spec fuel
unfolding visit
visit_err spec k zero d c flt starts w e = absurd (omega arith)
visit_err spec k (suc fuel) d c flt (known, greys) w e =
    by_color (visit_err spec k fuel) (color_of c d) refl e
  where
    by_task :
        FailsOnCycle spec fuel
        → color_of c d ≡ white
        → (o : Option TaskSpec) → task_of spec d ≡ o
        → expand (visit fuel spec) d o c ≡ err flt
        → Cyclic spec flt
    by_task rec q none t r = absurd (ids-task_of spec d known t)
    by_task rec q (some task) t r =
        let fewer = whites-grey (ids spec) d c q known in
        let run : visit_all (visit fuel spec) task.deps (insert d grey c) ≡ err flt =
          ground arith in
        visit_all_err spec fuel rec task.deps (insert d grey c) flt
          (λ b m.
            let dep : Dep spec b d = edge task t m in
            (
              k b d dep,
              λ x g. elim (Bool-cases (d == x)) [
                | inl s ↦ subst (Depends spec b) ((==_iff d x).0 s) (direct dep)
                | inr s ↦ over d dep (greys x (ground (arith, color_of-insert d x grey c)))
              ],
            ))
          (omega arith) run

    by_color :
        FailsOnCycle spec fuel
        → (color : Color) → color_of c d ≡ color
        → visit_color (visit fuel spec) spec d color c ≡ err flt
        → Cyclic spec flt
    by_color rec white q r = by_task rec q (task_of spec d) refl r
    by_color rec grey q r = (d, cc, greys d q)
    by_color rec black q r = cc

whites-start : (xs : BatchSpec) → whites (ids xs) [] ≤ length xs
unfolding lookup
whites-start [] = omega arith
whites-start (x ∷ xs) = ground (arith, whites-start xs)

unknown_dep-some :
    (known ds : List String) (d : String)
    → unknown_dep known ds ≡ some d
    → (contains ds d ≡ true) × (contains known d ≡ false)
unfolding unknown_dep
unknown_dep-some known [] d e = cc
unknown_dep-some known (x ∷ ds) d e = ground (arith, ==_refl d, unknown_dep-some known ds d)

-- Some task of the batch names a dependency that is no task of it.
abbrev pub Unknown : List String → BatchSpec → Fault → Type 0
Unknown known spec flt =
    (task : TaskSpec) × (d : String) × Memᴰ task spec
    × (flt ≡ unknown task.id d)
    × (contains task.deps d ≡ true)
    × (contains known d ≡ false)

check_deps_err :
    (known : List String) (spec : BatchSpec) (flt : Fault)
    → check_deps known spec ≡ err flt
    → Unknown known spec flt
unfolding check_deps
check_deps_err known [] flt e = cc
check_deps_err known (u ∷ spec) flt e =
    by_dep (check_deps_err known spec flt) (unknown_dep known u.deps) refl
  where
    by_dep :
        (check_deps known spec ≡ err flt → Unknown known spec flt)
        → (o : Option String) → unknown_dep known u.deps ≡ o
        → Unknown known (u ∷ spec) flt
    by_dep rec none q =
        let (task, d, m, same, named, missing) = rec (ground arith) in
        (task, d, Memᴰ.tail m, same, named, missing)
    by_dep rec (some d) q =
        let (named, missing) = unknown_dep-some known u.deps d q in
        (u, d, Memᴰ.head refl, ground arith, named, missing)

-- `validate_dag` rejects a batch for one of three reasons and never otherwise: a task id that occurs
-- twice, a dependency that is no task of the batch, named together with a task that has it, or a
-- task that depends on itself over one step or more. In particular the search never meets the
-- `unwrap` of a missing task and ends within a depth of one more than the number of tasks.
pub validate_dag_rejects :
    (spec : BatchSpec) (flt : Fault)
    → validate_dag spec ≡ err flt
    → ((flt ≡ duplicate) × (has_duplicate (ids spec) ≡ true))
      ⊎ (Unknown (ids spec) spec flt ⊎ Cyclic spec flt)
unfolding validate_dag cycle_check
validate_dag_rejects spec flt e = elim (Bool-cases (has_duplicate (ids spec))) [
  | inl twice ↦ inl (ground (arith, twice), twice)
  | inr once ↦
      let body : (do _ ← check_deps (ids spec) spec; _ ← cycle_check spec; ok tt) ≡ err flt =
        ground (arith, once) in
      inr (elim (>>=-err (check_deps (ids spec) spec) (λ _. do _ ← cycle_check spec; ok tt) body) [
        | inl q ↦ inl (check_deps_err (ids spec) spec flt q)
        | inr (_, known, rest) ↦ elim (>>=-err (cycle_check spec) (λ _. ok tt) rest) [
          | inr (_, _, never) ↦ cc
          | inl q ↦ inr (
              visit_all_err spec (suc (length spec))
                (visit_err spec (λ d t r. known_dep known r) (suc (length spec))) (ids spec) [] flt
                (λ d m. (m, λ x g. absurd (unfold lookup in ground arith)))
                (let few = whites-start spec in omega arith) q)
        ]
      ])
]
  where
    known_dep :
        {d t : String}
        → check_deps (ids spec) spec ≡ ok tt
        → Dep spec d t
        → contains (ids spec) d ≡ true
    known_dep {d} {t} k (edge task f m) = check_deps_ok (ids spec) spec t d task k f m
