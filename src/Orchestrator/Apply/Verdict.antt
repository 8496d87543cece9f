-- ===== src/Orchestrator/Apply/Verdict.antt =====
-- What a ticket can change, and what its verdict says of the files.
use role_n.Prelude.{
  String, ◌≡◌, refl, ap, ◌∙◌, ◌≢◌, inl, inr, Bool, false, true, Option, none, some, string_eq,
  Bool-cases, arith,
}
use role_n.Core.Types.{
  Text, WriteOp, create, patch, replace, delete, rename, applied, rejected, WriteTicket,
}
use role_n.Core.Text.{codes}
use role_n.Core.Patch.{Attempt, value, reject, panic, apply_patch}
use role_n.Runtime.Files.{
  FilePath, Files, Os, write_atomic, rename_file, delete_file, path_beq_iff, temp_of,
}
use role_n.Orchestrator.Apply.{
  returns, hash_of, is_stale, verdict, unwrap_or_default, rename_to, patch_to, perform, apply_at,
  apply_ticket,
}

module _ (os : Os) where
  -- An atomic write that fails leaves every path but the temporary one as it was.
  write_atomic_fails :
      (p q : FilePath) (content : Text) (files : Files)
      → temp_of p ≢ q
      → (write_atomic os p content files).0 ≡ false
      → (write_atomic os p content files).1 q ≡ files q
  unfolding write_atomic
  write_atomic_fails p q content files ne h = ground (arith, path_beq_iff (temp_of p) q)

  pub write_atomic_done :
      (p q : FilePath) (content : Text) (files : Files)
      → (write_atomic os p content files).0 ≡ true
      → ((write_atomic os p content files).1 p ≡ some content)
        × (temp_of p ≢ q → p ≢ q → (write_atomic os p content files).1 q ≡ files q)
  unfolding write_atomic
  write_atomic_done p q content files h = (
    ground (arith, path_beq_iff p p, path_beq_iff (temp_of p) (temp_of p)),
    λ a b.
        ground (
          arith,
          path_beq_iff p q,
          path_beq_iff (temp_of p) q,
          path_beq_iff (temp_of p) (temp_of p),
        ),
  )

verdict_rejected :
    (r : Bool × Files) (files' : Files)
    → verdict r ≡ returns rejected files'
    → (r.0 ≡ false) × (files' ≡ r.1)
unfolding verdict
verdict_rejected (true, files) files' e = cc
verdict_rejected (false, files) files' e = ground arith

verdict_applied :
    (r : Bool × Files) (files' : Files)
    → verdict r ≡ returns applied files'
    → (r.0 ≡ true) × (files' ≡ r.1)
unfolding verdict
verdict_applied (true, files) files' e = ground arith
verdict_applied (false, files) files' e = cc

-- What an applied ticket did, by its operation.
abbrev pub Effect : (Text → Option FilePath) → WriteOp → FilePath → Text → Files → Files → Type 0
Effect resolve create path payload files files' = files' path ≡ some payload
Effect resolve replace path payload files files' = files' path ≡ some payload
Effect resolve delete path payload files files' = files' path ≡ none
Effect resolve rename path payload files files' =
    (target : FilePath) × (content : Text) × (resolve payload ≡ some target)
    × (files path ≡ some content)
    × (files' target ≡ some content)
Effect resolve patch path payload files files' =
    (new : Text) × (apply_patch (unwrap_or_default (files path)) payload ≡ value new)
    × (files' path ≡ some new)

module _ (os : Os) (resolve : Text → Option FilePath) (hash : Text → String) where
  write_rejected :
      (path q : FilePath) (content : Text) (files files' : Files)
      → temp_of path ≢ q
      → verdict (write_atomic os path content files) ≡ returns rejected files'
      → files' q ≡ files q
  write_rejected path q content files files' ne e =
      let (failed, same) = verdict_rejected (write_atomic os path content files) files' e in
      ap (λ f. f q) same ∙ write_atomic_fails os path q content files ne failed

  write_applied :
      (path : FilePath) (content : Text) (files files' : Files)
      → verdict (write_atomic os path content files) ≡ returns applied files'
      → files' path ≡ some content
  write_applied path content files files' e =
      let (done, same) = verdict_applied (write_atomic os path content files) files' e in
      ap (λ f. f path) same ∙ (write_atomic_done os path path content files done).0

  patch_rejected :
      (path q : FilePath) (attempt : Attempt Text) (files files' : Files)
      → temp_of path ≢ q
      → patch_to os resolve hash path attempt files ≡ returns rejected files'
      → files' q ≡ files q
  unfolding patch_to
  patch_rejected path q (value new) files files' ne e = write_rejected path q new files files' ne e
  patch_rejected path q reject files files' ne e = ground arith
  patch_rejected path q panic files files' ne e = cc

  patch_applied :
      (path : FilePath) (attempt : Attempt Text) (files files' : Files)
      → patch_to os resolve hash path attempt files ≡ returns applied files'
      → (new : Text) × (attempt ≡ value new) × (files' path ≡ some new)
  unfolding patch_to
  patch_applied path (value new) files files' e = (new, refl, write_applied path new files files' e)
  patch_applied path reject files files' e = cc
  patch_applied path panic files files' e = cc

  rename_applied :
      (path : FilePath) (o : Option FilePath) (c : Option Text) (files files' : Files)
      → files path ≡ c
      → rename_to os resolve hash path o files ≡ returns applied files'
      → (target : FilePath) × (content : Text) × (o ≡ some target)
        × (files path ≡ some content)
        × (files' target ≡ some content)
  unfolding rename_to rename_file verdict
  rename_applied path none c files files' h e = cc
  rename_applied path (some target) none files files' h e = absurd (ground arith)
  rename_applied path (some target) (some content) files files' h e =
      (target, content, refl, h, ground (arith, h, path_beq_iff target target))

  perform_rejected :
      (op : WriteOp) (path q : FilePath) (payload : Text) (files files' : Files)
      → temp_of path ≢ q
      → perform os resolve hash op path payload files ≡ returns rejected files'
      → files' q ≡ files q
  unfolding perform rename_file delete_file
  perform_rejected create path q payload files files' ne e =
      write_rejected path q payload files files' ne e
  perform_rejected replace path q payload files files' ne e =
      write_rejected path q payload files files' ne e
  perform_rejected delete path q payload files files' ne e = ground arith
  perform_rejected rename path q payload files files' ne e = ground arith
  perform_rejected patch path q payload files files' ne e =
      patch_rejected path q _ files files' ne e

  perform_applied :
      (op : WriteOp) (path : FilePath) (payload : Text) (files files' : Files)
      → perform os resolve hash op path payload files ≡ returns applied files'
      → Effect resolve op path payload files files'
  unfolding perform rename_file delete_file
  perform_applied create path payload files files' e = write_applied path payload files files' e
  perform_applied replace path payload files files' e = write_applied path payload files files' e
  perform_applied delete path payload files files' e = ground (arith, path_beq_iff path path)
  perform_applied rename path payload files files' e =
      rename_applied path (resolve payload) (files path) files files' refl e
  perform_applied patch path payload files files' e = patch_applied path _ files files' e

  -- A rejected ticket leaves every file as it was, whatever calls of the operating system failed, but
  -- for the temporary file beside the path of the ticket.
  pub rejected_keeps :
      (ticket : WriteTicket) (files files' : Files) (q : FilePath)
      → ((path : FilePath) → resolve (codes ticket.path) ≡ some path → temp_of path ≢ q)
      → apply_ticket os resolve hash ticket files ≡ returns rejected files'
      → files' q ≡ files q
  unfolding apply_ticket
  rejected_keeps ticket files files' q ne e = go (resolve (codes ticket.path)) ne e
    where
      go :
          (o : Option FilePath)
          → ((path : FilePath) → o ≡ some path → temp_of path ≢ q)
          → apply_at os resolve hash ticket o files ≡ returns rejected files'
          → files' q ≡ files q
      go none n e = ground arith
      go (some path) n e =
          ground
            (arith, perform_rejected ticket.op path q ticket.payload files files' (n path refl))

  pub applied_effect :
      (ticket : WriteTicket) (files files' : Files) (path : FilePath)
      → resolve (codes ticket.path) ≡ some path
      → apply_ticket os resolve hash ticket files ≡ returns applied files'
      → (is_stale ticket.op ticket.base_hash (hash_of hash (files path)) ≡ false)
        × Effect resolve ticket.op path ticket.payload files files'
  unfolding apply_ticket
  applied_effect ticket files files' path r e =
      let at : apply_at os resolve hash ticket (some path) files ≡ returns applied files' =
        rw r at e in
      elim (Bool-cases (is_stale ticket.op ticket.base_hash (hash_of hash (files path)))) [
        | inl s ↦ absurd (ground arith)
        | inr s ↦ (s, perform_applied ticket.op path ticket.payload files files' (ground arith))
      ]
