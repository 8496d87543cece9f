-- ===== src/Adapters/Overlay/Mirror.antt =====
-- What a harvest of overlay.rs leaves in the workspace.
use role_n.Prelude.{
  ℕ, ◌+◌, String, ◌≡◌, ◌≢◌, refl, ap, sym, subst, ◌∙◌, true, false, Option, none, some, List, [],
  ◌∷◌, string_eq, option_eq, length, arith, All, Option-cases, inl, inr,
}
use role_n.Core.Types.{Text, applied}
use role_n.Core.Text.{codes}
use role_n.Runtime.Files.{FilePath, Files, temp_of}
use role_n.Orchestrator.Apply.{returns, hash_of, is_stale, apply_ticket}
use role_n.Orchestrator.Apply.Verdict.{Effect, applied_effect}
use role_n.Orchestrator.Apply.Total.{
  OsSucceeds, is_plain, Touches, apply_ticket-Touches, fresh_hash, fresh_create, fresh_delete,
}
use role_n.Adapters.Overlay.{
  Change, write, remove, rel_of, Harvest, Workspace, hash_file, op_for, ticket_for, counted,
  harvest_changes,
}

module _ (ws : Workspace) where
  -- A path that is in the sandbox resolves to its join with the root: there is no symbolic link.
  abbrev pub Resolves : String → Type 0
  Resolves rel = ws.resolve (codes rel) ≡ some (ws.base_join rel)

  -- The content that a change asks for.
  abbrev pub wanted : Change → Option Text
  wanted (write rel content) = some (ws.from_utf8_lossy content)
  wanted (remove rel) = none

  -- A write to one path leaves another alone.
  abbrev pub Apart : FilePath → FilePath → Type 0
  Apart p q = (p ≢ q) × (temp_of p ≢ q)

  -- No later change writes to the path of an earlier one.
  abbrev pub Separate : List Change → Type 0
  Separate [] = Unit
  Separate (c ∷ changes) =
      All (λ (d : Change). Apart (ws.base_join (rel_of d)) (ws.base_join (rel_of c))) changes
      × Separate changes

  ticket_for-plain :
      (id task_id : String) (ts : ℕ) (c : Change) (files : Files)
      → (is_plain (ticket_for ws id task_id ts c files).op ≡ true)
        × ((ticket_for ws id task_id ts c files).path ≡ rel_of c)
  unfolding ticket_for
  ticket_for-plain id task_id ts (write rel content) files =
      elim (Option-cases (files (ws.base_join rel))) [
        | inl e ↦ rw e (refl, refl)
        | inr (t, e) ↦ rw e (refl, refl)
      ]
  ticket_for-plain id task_id ts (remove rel) files = (refl, refl)

  ticket_for-fresh :
      (id task_id : String) (ts : ℕ) (c : Change) (files : Files)
      → Resolves (rel_of c)
      → let t = ticket_for ws id task_id ts c files in
        is_stale t.op t.base_hash (hash_of ws.hash (files (ws.base_join (rel_of c)))) ≡ false
  unfolding ticket_for hash_file
  ticket_for-fresh id task_id ts (write rel content) files r =
      elim (Option-cases (files (ws.base_join rel))) [
        | inl e ↦ rw e fresh_create
        | inr (t, e) ↦ rw (e, r) (rw e (fresh_hash ws.hash t))
      ]
  ticket_for-fresh id task_id ts (remove rel) files r = fresh_delete _

  write-effect :
      (o : Option Text) (path : FilePath) (payload : Text) (files files' : Files)
      → Effect ws.resolve (op_for ws o) path payload files files'
      → files' path ≡ some payload
  write-effect none path payload files files' e = e
  write-effect (some t) path payload files files' e = e

  ticket_for-effect :
      (id task_id : String) (ts : ℕ) (c : Change) (files files' : Files)
      → Resolves (rel_of c)
      → apply_ticket ws.os ws.resolve ws.hash (ticket_for ws id task_id ts c files) files
        ≡ returns applied files'
      → files' (ws.base_join (rel_of c)) ≡ wanted c
  unfolding ticket_for
  ticket_for-effect id task_id ts (write rel content) files files' r e =
      let t = ticket_for ws id task_id ts (write rel content) files in
      let (_, effect) =
        applied_effect ws.os ws.resolve ws.hash t files files' (ws.base_join rel) r e in
      write-effect (files (ws.base_join rel)) (ws.base_join rel) (ws.from_utf8_lossy content) files
        files' effect
  ticket_for-effect id task_id ts (remove rel) files files' r e =
      let t = ticket_for ws id task_id ts (remove rel) files in
      (applied_effect ws.os ws.resolve ws.hash t files files' (ws.base_join rel) r e).1

  -- The paths that no change writes to.
  abbrev pub Untouched : List Change → FilePath → Type 0
  Untouched changes q = All (λ (c : Change). Apart (ws.base_join (rel_of c)) q) changes

  abbrev pub AllResolve : List Change → Type 0
  AllResolve changes = All (λ (c : Change). Resolves (rel_of c)) changes

  -- What is in the workspace after the changes.
  abbrev pub Holds : List Change → Files → Type 0
  Holds changes files' = All (λ (c : Change). files' (ws.base_join (rel_of c)) ≡ wanted c) changes

  module _ (good : OsSucceeds ws.os) (ids : ℕ → String) (task_id : String) where
    applied-Touches :
        (ts : ℕ) (c : Change) (files : Files)
        → Resolves (rel_of c)
        → Touches ws.os ws.resolve ws.hash good (ws.base_join (rel_of c)) files (
            apply_ticket ws.os ws.resolve ws.hash (ticket_for ws (ids ts) task_id ts c files) files)
    applied-Touches ts c files r =
        let t = ticket_for ws (ids ts) task_id ts c files in
        let (plain, path) = ticket_for-plain (ids ts) task_id ts c files in
        apply_ticket-Touches ws.os ws.resolve ws.hash good t files (ws.base_join (rel_of c)) plain
          (ap (λ p. ws.resolve (codes p)) path ∙ r) (ticket_for-fresh (ids ts) task_id ts c files r)

    harvest_changes-step :
        (ts : ℕ) (c : Change) (changes : List Change) (h : Harvest) (files files' : Files)
        → apply_ticket ws.os ws.resolve ws.hash (ticket_for ws (ids ts) task_id ts c files) files
          ≡ returns applied files'
        → harvest_changes ws ids task_id ts (c ∷ changes) h files
          ≡ harvest_changes ws ids task_id (ts + 1) changes (counted ws applied c h) files'
    unfolding harvest_changes
    harvest_changes-step ts c changes h files files' e = rw e refl

    pub harvest_changes-Untouched :
        (ts : ℕ) (changes : List Change) (h : Harvest) (files : Files) (q : FilePath)
        → AllResolve changes
        → Untouched changes q
        → (harvest_changes ws ids task_id ts changes h files).1 q ≡ files q
    unfolding harvest_changes
    harvest_changes-Untouched ts [] h files q rs us = refl
    harvest_changes-Untouched ts (c ∷ changes) h files q (r, rs) ((a, b), us) =
        let (files', e, same) = applied-Touches ts c files r in
        rw (harvest_changes-step ts c changes h files files' e) (
          harvest_changes-Untouched (ts + 1) changes (counted ws applied c h) files' q rs us
          ∙ same q a b)

    -- Every change is applied, and holds at the end.
    abbrev pub Harvested : List Change → Harvest → Harvest × Files → Type 0
    Harvested changes h (h', files') =
        Holds changes files'
        × (h'.applied ≡ h.applied + length changes)
        × (h'.rejected ≡ h.rejected)

    pub harvest_changes-Harvested :
        (ts : ℕ) (changes : List Change) (h : Harvest) (files : Files)
        → AllResolve changes
        → Separate changes
        → Harvested changes h (harvest_changes ws ids task_id ts changes h files)
    unfolding harvest_changes
    harvest_changes-Harvested ts [] h files rs ss = (tt, omega arith, refl)
    harvest_changes-Harvested ts (c ∷ changes) h files (r, rs) (s, ss) =
        let (files', e, same) = applied-Touches ts c files r in
        let h' = counted ws applied c h in
        let (holds, n, m) = harvest_changes-Harvested (ts + 1) changes h' files' rs ss in
        subst (Harvested (c ∷ changes) h) (sym (harvest_changes-step ts c changes h files files' e))
          (
            (
              harvest_changes-Untouched (ts + 1) changes h' files' (ws.base_join (rel_of c)) rs s
                  ∙ ticket_for-effect (ids ts) task_id ts c files files' r e,
              holds,
            ),
            omega (arith, n),
            m,
          )
