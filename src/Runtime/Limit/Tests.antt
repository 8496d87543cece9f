-- ===== src/Runtime/Limit/Tests.antt =====
-- Two sessions under a cap of one, in limit.rs.
use role_n.Prelude.{◌≤◌, ◌≡◌, refl, true, [], ◌∷◌, arith}
use role_n.Runtime.Limit.{
  Slot, counted, acquire, wait, wake, drop_permit, Reach, here, later, permits_bounded,
}

-- The second session gets the permit when the first drops it.
abbrev handed_over : Slot
handed_over = record { active = 1; permits = true ∷ []; waiting = [] }

handed_over-Reach : Reach 1 handed_over
handed_over-Reach =
    later
      (later
        (later (later here (acquire 1 (omega arith) (omega arith)))
          (wait 1 (omega arith) (omega arith) (omega arith)))
        (drop_permit [] [] true refl))
      (wake [] [] 1 refl (omega arith))

permits_bounded_example : (handed_over.active ≡ counted handed_over) × (handed_over.active ≤ 1)
permits_bounded_example = permits_bounded 1 handed_over-Reach
