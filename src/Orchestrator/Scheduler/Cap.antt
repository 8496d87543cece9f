-- ===== src/Orchestrator/Scheduler/Cap.antt =====
-- `per_project_queue_cap` of scheduler.rs.
use native.Mathlib.Nat.{div-mul-le_self, le-div_iff_mul-le}
use role_n.Prelude.{ℕ, ◌*◌, ◌/◌, ◌≤◌, ◌<◌, max, ◌≡◌, false, eqb, leb, Bool-cases, inl, inr, arith}
use role_n.Orchestrator.Scheduler.{per_project_queue_cap}

-- The caps of several queues: unlimited stays unlimited, no project is left without a slot, and the
-- caps of all projects together stay within the total whenever it has a slot for each.
pub queue_cap_fair :
    (total projects : ℕ)
    → (total ≡ 0 → per_project_queue_cap total projects ≡ 0)
      × (0 < total → 0 < per_project_queue_cap total projects)
      × (0 < projects → projects ≤ total → per_project_queue_cap total projects * projects ≤ total)
unfolding per_project_queue_cap
queue_cap_fair total projects = (λ z. ground (arith, z), λ p. ground (arith, p), λ p l. shares p l)
  where
    shares :
        0 < projects → projects ≤ total → per_project_queue_cap total projects * projects ≤ total
    shares p l = elim (Bool-cases (leb projects 1)) [
      | inl one ↦ let is : projects ≡ 1 = ground (arith, one) in rw is (ground arith)
      | inr more ↦
          let some_each : 1 ≤ total / projects = (le-div_iff_mul-le p).1 (omega (arith, l)) in
          let test : eqb total 0 ≡ false = ground arith in
          let bigger : max (total / projects) 1 ≡ total / projects = omega (arith, some_each) in
          rw (test, more, bigger) (div-mul-le_self total projects)
    ]
