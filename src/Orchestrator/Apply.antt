-- ===== src/Orchestrator/Apply.antt =====
-- `apply_ticket` of rolen-orchestrator/src/queue.rs: the sandbox check, optimistic concurrency by the
-- content hash, and the write. Path resolution (`resolve_in`, which asks the file system) and the
-- hasher are parameters; so is the behaviour of the operating system (`Os`).
pub mod Verdict
pub mod Concurrency
pub mod Direct
pub mod Total
mod Tests
use role_n.Prelude.{
  ℕ, String, Bool, false, true, not, ◌&&◌, Option, none, some, List, [], ◌∷◌, if◌then◌else◌, ◌==◌,
  string_eq,
}
use role_n.Core.Types.{
  Text, WriteOp, create, patch, replace, delete, rename, TicketState, applied, rejected,
  WriteTicket,
}
use role_n.Core.Text.{codes}
use role_n.Core.Patch.{Attempt, value, reject, panic, apply_patch}
use role_n.Runtime.Files.{
  FilePath, Files, Os, stage, commit, write_atomic, rename_file, delete_file,
}

-- The verdict of the ticket and the files after it, or the panic of the applier thread.
pub data Run : Type 0 where
  returns : TicketState → Files → Run
  panics : Run

abbrev pub hash_of : (Text → String) → Option Text → Option String
hash_of hash none = none
hash_of hash (some content) = some (hash content)

abbrev is_create : WriteOp → Bool
is_create create = true
is_create _ = false

-- The `match` on the hash that the ticket was based on and the hash of the current content.
pub is_stale : WriteOp → Option String → Option String → Bool
is_stale patch base current = false
is_stale op none none = false
is_stale op (some want) (some got) = not (want == got)
is_stale op none (some got) = is_create op
is_stale op (some want) none = true

abbrev pub unwrap_or_default : Option Text → Text
unwrap_or_default none = []
unwrap_or_default (some content) = content

-- `Ok(()) => Applied`, `Err(_) => Rejected`.
verdict : Bool × Files → Run
verdict (done, files) = if done then returns applied files else returns rejected files

module _ (os : Os) (resolve : Text → Option FilePath) (hash : Text → String) where
  rename_to : FilePath → Option FilePath → Files → Run
  unfolding verdict
  rename_to path none files = returns rejected files
  rename_to path (some target) files = verdict (rename_file os path target files)

  patch_to : FilePath → Attempt Text → Files → Run
  unfolding verdict
  patch_to path (value new) files = verdict (write_atomic os path new files)
  patch_to path reject files = returns rejected files
  patch_to path panic files = panics

  perform : WriteOp → FilePath → Text → Files → Run
  unfolding rename_to patch_to verdict
  perform create path payload files = verdict (write_atomic os path payload files)
  perform replace path payload files = verdict (write_atomic os path payload files)
  perform delete path payload files = verdict (delete_file os path (files path) files)
  perform rename path payload files = rename_to path (resolve payload) files
  perform patch path payload files =
      patch_to path (apply_patch (unwrap_or_default (files path)) payload) files

  apply_at : WriteTicket → Option FilePath → Files → Run
  apply_at ticket none files = returns rejected files
  apply_at ticket (some path) files =
      if is_stale ticket.op ticket.base_hash (hash_of hash (files path))
      then returns rejected files
      else perform ticket.op path ticket.payload files

  pub apply_ticket : WriteTicket → Files → Run
  unfolding apply_at
  apply_ticket ticket files = apply_at ticket (resolve (codes ticket.path)) files
