-- ===== src/Runtime/Limit.antt =====
-- The limiter of rolen-runtime/src/limit.rs for one provider: the count of active sessions behind its
-- mutex, and the sessions that use it, as a step relation. Each session brings the cap that it read.
mod Tests
use role_n.Prelude.{
  ℕ, zero, suc, ◌+◌, ◌-◌, ◌≤◌, ◌<◌, ◌≡◌, Bool, true, false, List, [], ◌∷◌, ◌++◌, tally,
  tally-append, arith, All, subst, ap, refl,
}

-- A permit by its flag `counted`; `waiting` sessions are in the loop on the condition variable.
pub record Slot : Type 0 where
  pub active : ℕ
  pub permits : List Bool
  pub waiting : List ℕ

abbrev pub bit : Bool → ℕ
bit true = 1
bit false = 0

abbrev pub counted : Slot → ℕ
counted s = tally bit s.permits

-- `acquire_with_cap` returns at once for 0; else it waits while `active >= cap`. A waiting session is
-- woken by `notify_one` or without reason, and tests again. A permit may be dropped in any order. No
-- session reads a cap above `most`.
pub data Step (most : ℕ) : Slot → Slot → Type 0 where
  unlimited : {s : Slot} → Step most s (record s { permits = false ∷ s.permits })
  acquire :
      {s : Slot} (cap : ℕ)
      → cap ≤ most
      → s.active < cap
      → Step most s (record s { active = s.active + 1; permits = true ∷ s.permits })
  wait :
      {s : Slot} (cap : ℕ)
      → cap ≤ most
      → 0 < cap
      → cap ≤ s.active
      → Step most s (record s { waiting = cap ∷ s.waiting })
  wake :
      {s : Slot} (before after : List ℕ) (cap : ℕ)
      → s.waiting ≡ before ++ cap ∷ after
      → s.active < cap
      → Step most s
          (record { active = s.active + 1; permits = true ∷ s.permits; waiting = before ++ after })
  drop_permit :
      {s : Slot} (before after : List Bool) (counts : Bool)
      → s.permits ≡ before ++ counts ∷ after
      → Step most s (record s { active = s.active - bit counts; permits = before ++ after })

abbrev pub idle : Slot
idle = record { active = 0; permits = []; waiting = [] }

pub data Reach (most : ℕ) : Slot → Type 0 where
  here : Reach most idle
  later : {s t : Slot} → Reach most s → Step most s t → Reach most t

-- The counter is the number of counted permits, within the cap, as are the caps that are waited for.
abbrev IsCounted : ℕ → Slot → Type 0
IsCounted most s =
    (s.active ≡ counted s) × (s.active ≤ most) × All (λ (cap : ℕ). cap ≤ most) s.waiting

All-middle :
    (most : ℕ) (before after : List ℕ) (cap : ℕ)
    → All (λ (c : ℕ). c ≤ most) (before ++ cap ∷ after)
    → (cap ≤ most) × All (λ (c : ℕ). c ≤ most) (before ++ after)
All-middle most [] after own (p, a) = (p, a)
All-middle most (c ∷ before) after own (p, a) =
    let (q, b) = All-middle most before after own a in (q, (p, b))

Step-IsCounted : (most : ℕ) {s t : Slot} → Step most s t → IsCounted most s → IsCounted most t
Step-IsCounted most unlimited (e, l, w) = (omega (arith, e), l, w)
Step-IsCounted most (acquire own c f) (e, l, w) = (omega (arith, e), omega (arith, c, f), w)
Step-IsCounted most (wait own c p f) (e, l, w) = (e, l, (c, w))
Step-IsCounted most (wake {s} before after own q f) (e, l, w) =
    let (c, rest) = All-middle most before after own (subst (All (λ (c : ℕ). c ≤ most)) q w) in
    (omega (arith, e), omega (arith, c, f), rest)
Step-IsCounted most (drop_permit {s} before after counts q) (e, l, w) =
    let total : tally bit s.permits ≡ tally bit (before ++ counts ∷ after) = ap (tally bit) q in
    let split = tally-append bit before (counts ∷ after) in
    let merged = tally-append bit before after in
    (omega (arith, e, total, split, merged), omega (arith, l), w)

-- However sessions come, wait, wake up and end, the counter of a provider is the number of counted
-- permits that are out, so the subtraction of a drop never saturates, and it never exceeds the
-- largest cap that a session has read.
pub permits_bounded :
    (most : ℕ) {s : Slot} → Reach most s → (s.active ≡ counted s) × (s.active ≤ most)
permits_bounded most here = (refl, omega arith)
permits_bounded most (later r step) =
    let (e, l, _) = Step-IsCounted most step (Reach-IsCounted r) in (e, l)
  where
    Reach-IsCounted : {s : Slot} → Reach most s → IsCounted most s
    Reach-IsCounted here = (refl, omega arith, tt)
    Reach-IsCounted (later q step') = Step-IsCounted most step' (Reach-IsCounted q)
