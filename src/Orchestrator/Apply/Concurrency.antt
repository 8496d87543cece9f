-- ===== src/Orchestrator/Apply/Concurrency.antt =====
-- Optimistic concurrency of `apply_ticket`, and the temporary file that two paths can share.
use role_n.Prelude.{
  String, ◌≡◌, refl, subst, ◌≢◌, false, true, Option, none, some, ==_iff, string_eq, arith,
}
use role_n.Core.Types.{
  Text, WriteOp, create, patch, replace, delete, rename, applied, rejected, WriteTicket,
}
use role_n.Core.Text.{codes}
use role_n.Runtime.Files.{FilePath, Files, Os, stage, commit, temp_of, path_beq_iff, put, put-same}
use role_n.Orchestrator.Apply.{returns, hash_of, is_stale, apply_ticket}
use role_n.Orchestrator.Apply.Verdict.{applied_effect, Effect}

stale_hash :
    (op : WriteOp) (want : String) (current : Option String)
    → op ≢ patch
    → current ≢ some want
    → is_stale op (some want) current ≡ true
unfolding is_stale
stale_hash patch want current n ne = absurd (n refl)
stale_hash create want none n ne = refl
stale_hash replace want none n ne = refl
stale_hash delete want none n ne = refl
stale_hash rename want none n ne = refl
stale_hash create want (some got) n ne = ground (arith, ==_iff want got)
stale_hash replace want (some got) n ne = ground (arith, ==_iff want got)
stale_hash delete want (some got) n ne = ground (arith, ==_iff want got)
stale_hash rename want (some got) n ne = ground (arith, ==_iff want got)

module _ (os : Os) (resolve : Text → Option FilePath) (hash : Text → String) where
  -- A ticket that is no patch and names a hash other than that of the current content, or names one
  -- although the file is gone, is rejected and changes nothing at all.
  pub stale_rejected :
      (ticket : WriteTicket) (files : Files) (path : FilePath) (want : String)
      → ticket.op ≢ patch
      → ticket.base_hash ≡ some want
      → resolve (codes ticket.path) ≡ some path
      → hash_of hash (files path) ≢ some want
      → apply_ticket os resolve hash ticket files ≡ returns rejected files
  unfolding apply_ticket
  stale_rejected ticket files path want n b r ne =
      let s = stale_hash ticket.op want (hash_of hash (files path)) n ne in ground (arith, r, b, s)

  -- Two writers that based a full write of one path on the same content cannot both succeed: if the
  -- first is applied and its payload hashes otherwise, the second is rejected, and the file keeps
  -- the payload of the first.
  pub no_lost_update :
      (first second : WriteTicket) (files files' : Files) (path : FilePath) (want : String)
      → first.op ≡ replace
      → second.op ≡ replace
      → second.base_hash ≡ some want
      → resolve (codes first.path) ≡ some path
      → resolve (codes second.path) ≡ some path
      → hash first.payload ≢ want
      → apply_ticket os resolve hash first files ≡ returns applied files'
      → (files' path ≡ some first.payload)
        × (apply_ticket os resolve hash second files' ≡ returns rejected files')
  no_lost_update first second files files' path want o p b r s ne e =
      let (_, effect) = applied_effect os resolve hash first files files' path r e in
      let kept : files' path ≡ some first.payload =
        subst (λ op. Effect resolve op path first.payload files files') o effect in
      (
        kept,
        stale_rejected second files' path want (ground (arith, p)) b s (ground (arith, kept, ne)),
      )

  -- A create ticket without a base hash never replaces a file that is there.
  pub create_keeps :
      (ticket : WriteTicket) (files : Files) (path : FilePath) (content : Text)
      → ticket.op ≡ create
      → ticket.base_hash ≡ none
      → resolve (codes ticket.path) ≡ some path
      → files path ≡ some content
      → apply_ticket os resolve hash ticket files ≡ returns rejected files
  unfolding apply_ticket is_stale
  create_keeps ticket files path content o b r f = ground (arith, o, b, r, f)

-- An operating system on which no call fails.
abbrev pub calm : Os
calm = record {
  mkdir_ok = λ _. true;
  write_ok = λ _. true;
  torn = λ _ old _. old;
  rename_ok = λ _ _. true;
  remove_ok = λ _. true;
}

-- Two paths that differ only in the extension have one temporary file. If an applier of each has
-- staged its content before either has committed, then the first commit puts the content of the
-- other ticket in its file, and the second commit fails, although no call of the system fails.
pub shared_temp_race :
    (p q : FilePath) (c d : Text) (files : Files)
    → temp_of p ≡ temp_of q
    → p ≢ temp_of p
    → let staged = (stage calm q d (stage calm p c files).1).1 in
      ((commit calm p staged).1 p ≡ some d) × ((commit calm q (commit calm p staged).1).0 ≡ false)
unfolding stage commit
shared_temp_race p q c d files same ne = rw (← same) (
  ground (arith, put-same (temp_of p) (some d) (put (temp_of p) (some c) files), path_beq_iff p p),
  ground (
    arith,
    put-same (temp_of p) (some d) (put (temp_of p) (some c) files),
    path_beq_iff p (temp_of p),
    path_beq_iff (temp_of p) (temp_of p),
  ),
)
