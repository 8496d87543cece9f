-- ===== src/Orchestrator/Apply/Tests.antt =====
-- Tickets of queue.rs applied to a small workspace, and the theorems there.
use role_n.Prelude.{
  String, ◌≡◌, refl, ap, subst, ◌≢◌, false, Option, none, some, [], ◌∷◌, string_eq, arith,
  if◌then◌else◌, ==_iff,
}
use role_n.Core.Types.{Text, WriteOp, patch, replace, applied, rejected, queued, WriteTicket}
use role_n.Core.Text.{codes}
use role_n.Core.Patch.{apply_patch}
use role_n.Runtime.Files.{
  FilePath, Files, Os, stage, commit, temp_of, put, write_atomic, rename_file, delete_file,
}
use role_n.Orchestrator.Apply.{returns, panics, hash_of, is_stale, perform, apply_ticket}
use role_n.Runtime.Sink
use role_n.Orchestrator.Apply.Direct.{as_verdict, direct_agrees}
use role_n.Orchestrator.Apply.Verdict.{rejected_keeps}
use role_n.Orchestrator.Apply.Concurrency.{calm, no_lost_update}

abbrev file : String → String → FilePath
file stem ext = record { dir = ""; stem = stem; ext = some ext }

abbrev a_txt : FilePath
a_txt = file "a" "txt"

abbrev resolve : Text → Option FilePath
resolve text = some a_txt

-- A hash that tells these contents apart.
abbrev hash : Text → String
hash [] = "empty"
hash (_ ∷ []) = "one"
hash (_ ∷ _ ∷ _) = "more"

abbrev one_file : Files
one_file p = if role_n.Runtime.Files.path_beq p a_txt then some (codes "x") else none

abbrev ticket : WriteOp → Option String → Text → WriteTicket
ticket op base payload = record {
  id = "1";
  task_id = "t";
  path = "a.txt";
  op = op;
  payload = payload;
  base_hash = base;
  state = queued;
  ts = 0;
}

program : Unit {0}
unfolding apply_ticket is_stale perform write_atomic rename_file delete_file apply_patch temp_of put
program = tt

abbrev stale : WriteTicket
stale = ticket replace (some "empty") (codes "yy")

abbrev fresh : WriteTicket
fresh = ticket replace (some "one") (codes "yy")

abbrev after_fresh : Files
unfolding write_atomic
after_fresh = (write_atomic calm a_txt (codes "yy") one_file).1

stale_is_rejected : apply_ticket calm resolve hash stale one_file ≡ returns rejected one_file
unfolding program
stale_is_rejected = refl

fresh_is_applied : apply_ticket calm resolve hash fresh one_file ≡ returns applied after_fresh
unfolding program
fresh_is_applied = refl

short_patch_panics :
    apply_ticket calm resolve hash
      (ticket patch none (codes "@@ -1,2 +1,1 @@\n-x\n-y\n+z\n"))
      one_file
    ≡ panics
unfolding program
short_patch_panics = refl

beside : (path : FilePath) → resolve (codes stale.path) ≡ some path → temp_of path ≢ a_txt
unfolding temp_of
beside path e f =
    ground (arith, ap (λ (p : FilePath). p.ext) f, ==_iff {A = String} "rolen-tmp" "txt")

rejected_keeps_example : one_file a_txt ≡ some (codes "x")
rejected_keeps_example =
    rejected_keeps calm resolve hash stale one_file one_file a_txt beside stale_is_rejected

more_is_not_one : hash fresh.payload ≢ "one"
more_is_not_one e = ground (arith, ==_iff {A = String} "more" "one")

not_patch : replace ≢ patch
not_patch = ground arith

other_hash : ◌≢◌ {A = Option String} (some "one") (some "empty")
other_hash e = ground (arith, ==_iff {A = String} "one" "empty")

no_lost_update_example :
    (after_fresh a_txt ≡ some (codes "yy"))
    × (apply_ticket calm resolve hash fresh after_fresh ≡ returns rejected after_fresh)
no_lost_update_example =
    no_lost_update calm resolve hash fresh fresh one_file after_fresh a_txt "one" refl refl refl
      refl refl more_is_not_one fresh_is_applied

abbrev a_md : FilePath
a_md = file "a" "md"

shared_temp : temp_of a_txt ≡ temp_of a_md
unfolding temp_of
shared_temp = refl

txt_is_not_temp : a_txt ≢ temp_of a_txt
unfolding temp_of
txt_is_not_temp e =
    ground (arith, ap (λ (p : FilePath). p.ext) e, ==_iff {A = String} "txt" "rolen-tmp")

fresh_holds :
    (path : FilePath)
    → resolve (codes fresh.path) ≡ some path
    → is_stale fresh.op fresh.base_hash (hash_of hash (one_file path)) ≡ false
fresh_holds path e =
    let same : a_txt ≡ path = cc in
    subst (λ z. is_stale replace (some "one") (hash_of hash (one_file z)) ≡ false) same
      (unfold is_stale in refl)

direct_agrees_example :
    as_verdict (Sink.apply calm resolve fresh one_file)
    ≡ apply_ticket calm resolve hash fresh one_file
direct_agrees_example = direct_agrees calm resolve hash fresh one_file fresh_holds
