-- ===== src/Orchestrator/Dag/Unique.antt =====
-- Without a duplicate id, every task of a batch is the one that its id names.
use role_n.Prelude.{◌≡◌, false, some, [], ◌∷◌, ==_iff, ==_refl, string_eq, contains, arith, All}
use role_n.Orchestrator.Dag.{TaskSpec, BatchSpec, task_of, ids, has_duplicate}

-- Every task of the batch is the one that its id names.
abbrev pub Unique : BatchSpec → Type 0
Unique spec = All (λ (t : TaskSpec). task_of spec t.id ≡ some t) spec

Unique-cons :
    (x : TaskSpec) (spec rest : BatchSpec)
    → contains (ids rest) x.id ≡ false
    → All (λ (t : TaskSpec). task_of spec t.id ≡ some t) rest
    → All (λ (t : TaskSpec). task_of (x ∷ spec) t.id ≡ some t) rest
Unique-cons x spec [] n u = tt
Unique-cons x spec (t ∷ rest) n (e, u) = (
  ground (arith, e, n, ==_iff x.id t.id, ==_refl x.id),
  Unique-cons x spec rest (ground (arith, n)) u,
)

pub has_duplicate-Unique : (spec : BatchSpec) → has_duplicate (ids spec) ≡ false → Unique spec
unfolding has_duplicate
has_duplicate-Unique [] n = tt
has_duplicate-Unique (x ∷ spec) n = (
  ground (arith, ==_refl x.id),
  Unique-cons x spec spec (ground (arith, n)) (has_duplicate-Unique spec (ground (arith, n))),
)
