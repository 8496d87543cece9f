-- ===== src/Orchestrator/Apply/Direct.antt =====
-- The queue's applier against the direct sink of rolen-runtime/src/sink.rs.
use role_n.Prelude.{Bool, true, false, ◌≡◌, refl, Option, none, some, String}
use role_n.Core.Types.{Text, WriteOp, create, patch, replace, delete, rename, rejected, WriteTicket}
use role_n.Core.Text.{codes}
use role_n.Core.Patch.{Attempt, value, reject, panic, apply_patch}
use role_n.Runtime.Files.{FilePath, Files, Os, write_atomic, rename_file, delete_file}
use role_n.Runtime.Sink
use role_n.Orchestrator.Apply.{
  Run, returns, panics, hash_of, is_stale, verdict, rename_to, patch_to, perform, apply_at,
  apply_ticket, unwrap_or_default,
}

-- An error of the direct sink, seen as a rejection.
abbrev pub as_verdict : Sink.Applied → Run
as_verdict (Sink.ok state files) = returns state files
as_verdict (Sink.err files) = returns rejected files
as_verdict Sink.panics = panics

finish-verdict : (r : Bool × Files) → as_verdict (Sink.finish r) ≡ verdict r
unfolding verdict
finish-verdict (true, files) = refl
finish-verdict (false, files) = refl

module _ (os : Os) (resolve : Text → Option FilePath) (hash : Text → String) where
  rename_to-agrees :
      (path : FilePath) (target : Option FilePath) (files : Files)
      → as_verdict (Sink.rename_to os resolve path target files)
        ≡ rename_to os resolve hash path target files
  unfolding Sink.rename_to rename_to
  rename_to-agrees path none files = refl
  rename_to-agrees path (some target) files = finish-verdict (rename_file os path target files)

  patch_to-agrees :
      (path : FilePath) (new : Attempt Text) (files : Files)
      → as_verdict (Sink.patch_to os resolve path new files)
        ≡ patch_to os resolve hash path new files
  unfolding Sink.patch_to patch_to
  patch_to-agrees path (value new) files = finish-verdict (write_atomic os path new files)
  patch_to-agrees path reject files = refl
  patch_to-agrees path panic files = refl

  perform-agrees :
      (op : WriteOp) (path : FilePath) (payload : Text) (files : Files)
      → as_verdict (Sink.perform os resolve op path payload files)
        ≡ perform os resolve hash op path payload files
  unfolding Sink.perform perform
  perform-agrees create path payload files = finish-verdict (write_atomic os path payload files)
  perform-agrees replace path payload files = finish-verdict (write_atomic os path payload files)
  perform-agrees delete path payload files = finish-verdict (delete_file os path (files path) files)
  perform-agrees rename path payload files = rename_to-agrees path (resolve payload) files
  perform-agrees patch path payload files =
      patch_to-agrees path (apply_patch (unwrap_or_default (files path)) payload) files

  -- On a ticket whose base hash is not stale, the queue's applier and the direct sink do the same to
  -- the files and agree on the verdict, an error of the direct sink counted as a rejection: the
  -- hash is the only thing that the queue checks besides.
  pub direct_agrees :
      (ticket : WriteTicket) (files : Files)
      → ((path : FilePath)
          → resolve (codes ticket.path) ≡ some path
          → is_stale ticket.op ticket.base_hash (hash_of hash (files path)) ≡ false)
      → as_verdict (Sink.apply os resolve ticket files) ≡ apply_ticket os resolve hash ticket files
  unfolding Sink.apply Sink.apply_at apply_ticket apply_at
  direct_agrees ticket files fresh = by_path (resolve (codes ticket.path)) refl
    where
      by_path :
          (o : Option FilePath)
          → resolve (codes ticket.path) ≡ o
          → as_verdict (Sink.apply_at os resolve ticket o files)
            ≡ apply_at os resolve hash ticket o files
      by_path none e = refl
      by_path (some path) e = rw (fresh path e) (perform-agrees ticket.op path ticket.payload files)
