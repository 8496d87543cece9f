-- ===== src/Runtime/Sink.antt =====
-- `DirectWriteSink` of rolen-runtime/src/sink.rs: a ticket applied at once, without the test of its
-- base hash. Path resolution is a parameter, as in the queue's applier.
use role_n.Prelude.{Bool, Option, none, some, [], if◌then◌else◌}
use role_n.Core.Types.{
  Text, WriteOp, create, patch, replace, delete, rename, TicketState, applied, rejected,
  WriteTicket,
}
use role_n.Core.Text.{codes}
use role_n.Core.Patch.{Attempt, value, reject, panic, apply_patch}
use role_n.Runtime.Files.{FilePath, Files, Os, write_atomic, rename_file, delete_file}

-- `Ok` of a state, `Err` (of the sandbox or of the system), and a panic of the patch.
pub data Applied : Type 0 where
  ok : TicketState → Files → Applied
  err : Files → Applied
  panics : Applied

-- `?` after the last call, and `Ok(TicketState::Applied)`.
abbrev pub finish : Bool × Files → Applied
finish (done, files) = if done then ok applied files else err files

abbrev or_default : Option Text → Text
or_default none = []
or_default (some content) = content

module _ (os : Os) (resolve : Text → Option FilePath) where
  unfoldable pub rename_to : FilePath → Option FilePath → Files → Applied
  rename_to path none files = err files
  rename_to path (some target) files = finish (rename_file os path target files)

  unfoldable pub patch_to : FilePath → Attempt Text → Files → Applied
  patch_to path (value new) files = finish (write_atomic os path new files)
  patch_to path reject files = ok rejected files
  patch_to path panic files = panics

  unfoldable pub perform : WriteOp → FilePath → Text → Files → Applied
  unfolding rename_to patch_to
  perform create path payload files = finish (write_atomic os path payload files)
  perform replace path payload files = finish (write_atomic os path payload files)
  perform delete path payload files = finish (delete_file os path (files path) files)
  perform rename path payload files = rename_to path (resolve payload) files
  perform patch path payload files =
      patch_to path (apply_patch (or_default (files path)) payload) files

  unfoldable pub apply_at : WriteTicket → Option FilePath → Files → Applied
  unfolding perform
  apply_at ticket none files = err files
  apply_at ticket (some path) files = perform ticket.op path ticket.payload files

  unfoldable pub apply : WriteTicket → Files → Applied
  unfolding apply_at
  apply ticket files = apply_at ticket (resolve (codes ticket.path)) files
