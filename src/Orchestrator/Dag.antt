-- ===== src/Orchestrator/Dag.antt =====
-- The acceptance of a task graph, `validate_dag` of rolen-orchestrator/src/scheduler.rs: a depth-first
-- search with colours. Its recursion is on fuel; what is enough is proved in Reject.
pub mod Sound
pub mod Reject
pub mod Unique
pub mod Samples
mod Tests
use role_n.Prelude.{
  ℕ, zero, suc, String, Bool, false, true, not, ◌&&◌, ◌||◌, Option, none, some, List, [], ◌∷◌, map,
  if◌then◌else◌, ◌==◌, string_eq, contains, find, length, all,
}
use role_n.Prelude.Dict.{lookup, insert, add}

pub record TaskSpec : Type 0 where
  pub id : String
  pub role : String
  pub title : String
  pub task : String
  pub deps : List String
  pub claimed_paths : List String
  pub provider : Option String
  pub model : Option String

-- `BatchSpec`: its one field.
abbrev pub BatchSpec : Type 0
BatchSpec = List TaskSpec

-- `SchedError::Dag`, by its three texts; the panic of the `unwrap` in `visit`; and no fuel.
pub data Fault : Type 0 where
  duplicate : Fault
  unknown : String → String → Fault
  cycle : String → Fault
  panic out_of_fuel : Fault

pub data Result (A : Type 0) : Type 0 where
  ok : A → Result A
  err : Fault → Result A

infixl 5 ◌>>=◌
abbrev pub ◌>>=◌ : {A B : Type 0} → Result A → (A → Result B) → Result B
ok a >>= f = f a
err e >>= f = err e

abbrev pub ids : BatchSpec → List String
ids spec = map (λ t. t.id) spec

abbrev pub task_of : BatchSpec → String → Option TaskSpec
task_of spec id = find (λ t. t.id == id) spec

-- `ids.len() != spec.tasks.len()` for the set of the ids.
pub has_duplicate : List String → Bool
has_duplicate [] = false
has_duplicate (i ∷ is) = contains is i || has_duplicate is

unknown_dep : List String → List String → Option String
unknown_dep known [] = none
unknown_dep known (d ∷ ds) = if contains known d then unknown_dep known ds else some d

pub check_deps : List String → BatchSpec → Result Unit
unfolding unknown_dep
check_deps known [] = ok tt
check_deps known (t ∷ ts) = elim (unknown_dep known t.deps) [
  | some d ↦ err (unknown t.id d)
  | none ↦ check_deps known ts
]

pub data Color : Type 0 where
  white grey black : Color

abbrev pub Colors : Type 0
Colors = List (String × Color)

abbrev or_white : Option Color → Color
or_white none = white
or_white (some c) = c

-- `color.get(id).copied().unwrap_or(0)`
abbrev pub color_of : Colors → String → Color
color_of colors id = or_white (lookup id colors)

-- `for d in &task.deps { visit(d, spec, color)?; }`
visit_all : (String → Colors → Result Colors) → List String → Colors → Result Colors
visit_all f [] colors = ok colors
visit_all f (d ∷ ds) colors = f d colors >>= visit_all f ds

expand : (String → Colors → Result Colors) → String → Option TaskSpec → Colors → Result Colors
unfolding visit_all
expand f id none colors = err panic
expand f id (some t) colors = do
  colors' ← visit_all f t.deps (insert id grey colors)
  ok (insert id black colors')

visit_color :
    (String → Colors → Result Colors) → BatchSpec → String → Color → Colors → Result Colors
unfolding expand
visit_color f spec id grey colors = err (cycle id)
visit_color f spec id black colors = ok colors
visit_color f spec id white colors = expand f id (task_of spec id) colors

pub visit : ℕ → BatchSpec → String → Colors → Result Colors
unfolding visit_color
visit zero spec id colors = err out_of_fuel
visit (suc fuel) spec id colors =
    visit_color (λ d c. visit fuel spec d c) spec id (color_of colors id) colors

cycle_check : BatchSpec → Result Colors
unfolding visit
cycle_check spec = visit_all (visit (suc (length spec)) spec) (ids spec) []

pub validate_dag : BatchSpec → Result Unit
validate_dag spec =
    if has_duplicate (ids spec)
    then err duplicate
    else do _ ← check_deps (ids spec) spec; _ ← cycle_check spec; ok tt
