-- ===== src/Orchestrator/Apply/Total.antt =====
-- When the operating system does what it is asked, a ticket of queue.rs that is not stale is applied.
use role_n.Prelude.{
  String, ◌≡◌, ◌≢◌, refl, Bool, false, true, Option, none, some, string_eq, inl, inr, Option-cases,
  arith, ==_refl,
}
use role_n.Core.Types.{Text, WriteOp, create, patch, replace, delete, rename, applied, WriteTicket}
use role_n.Core.Text.{codes}
use role_n.Runtime.Files.{
  FilePath, Files, Os, write_atomic, delete_file, put, put-other, path_beq_iff, temp_of,
}
use role_n.Orchestrator.Apply.Verdict.{write_atomic_done}
use role_n.Orchestrator.Apply.{
  Run, returns, hash_of, is_stale, verdict, perform, apply_at, apply_ticket,
}

-- Every call succeeds.
pub record OsSucceeds (os : Os) : Type 0 where
  pub mkdirs : (p : FilePath) → os.mkdir_ok p ≡ true
  pub writes : (p : FilePath) → os.write_ok p ≡ true
  pub renames : (p q : FilePath) → os.rename_ok p q ≡ true
  pub removes : (p : FilePath) → os.remove_ok p ≡ true

-- A ticket that writes or deletes its path.
abbrev pub is_plain : WriteOp → Bool
is_plain create = true
is_plain replace = true
is_plain delete = true
is_plain _ = false

-- The hash that a ticket is based on, when it is that of the content.
pub fresh_hash :
    (hash : Text → String) (content : Text)
    → is_stale replace (hash_of hash (some content)) (hash_of hash (some content)) ≡ false
unfolding is_stale
fresh_hash hash content = ground (arith, ==_refl (hash content))

pub fresh_create : is_stale create none none ≡ false
unfolding is_stale
fresh_create = refl

pub fresh_delete : (got : Option String) → is_stale delete none got ≡ false
unfolding is_stale
fresh_delete none = refl
fresh_delete (some got) = refl

module _ (os : Os) (resolve : Text → Option FilePath) (hash : Text → String)
    (good : OsSucceeds os) where
  -- The ticket is applied, and touches its path and the temporary file beside it only.
  abbrev pub Touches : FilePath → Files → Run → Type 0
  Touches path files r =
      (files' : Files) × (r ≡ returns applied files')
      × ((q : FilePath) → path ≢ q → temp_of path ≢ q → files' q ≡ files q)

  write_atomic-succeeds :
      (path : FilePath) (content : Text) (files : Files)
      → (write_atomic os path content files).0 ≡ true
  unfolding write_atomic
  write_atomic-succeeds path content files = ground (
    arith,
    good.mkdirs path,
    good.writes (temp_of path),
    good.renames (temp_of path) path,
    path_beq_iff (temp_of path) (temp_of path),
  )

  verdict-true : (r : Bool × Files) → r.0 ≡ true → verdict r ≡ returns applied r.1
  unfolding verdict
  verdict-true (done, files) h = rw h refl

  write-Touches :
      (path : FilePath) (content : Text) (files : Files)
      → Touches path files (verdict (write_atomic os path content files))
  write-Touches path content files =
      let r = write_atomic os path content files in
      let done = write_atomic-succeeds path content files in
      (r.1, verdict-true r done, λ q a b. (write_atomic_done os path q content files done).1 b a)

  delete-Touches :
      (path : FilePath) (files : Files)
      → Touches path files (verdict (delete_file os path (files path) files))
  unfolding delete_file verdict
  delete-Touches path files = elim (Option-cases (files path)) [
    | inl e ↦ (files, rw e refl, λ q a b. refl)
    | inr (content, e) ↦ (
      put path none files,
      rw (e, good.removes path) refl,
      λ q a b. put-other path q none files a,
    )
  ]

  perform-Touches :
      (op : WriteOp) (path : FilePath) (payload : Text) (files : Files)
      → is_plain op ≡ true
      → Touches path files (perform os resolve hash op path payload files)
  unfolding perform
  perform-Touches create path payload files h = write-Touches path payload files
  perform-Touches replace path payload files h = write-Touches path payload files
  perform-Touches delete path payload files h = delete-Touches path files
  perform-Touches rename path payload files h = absurd (ground (arith, h))
  perform-Touches patch path payload files h = absurd (ground (arith, h))

  -- A ticket to write or delete a path, in the sandbox and not stale, is applied.
  pub apply_ticket-Touches :
      (ticket : WriteTicket) (files : Files) (path : FilePath)
      → is_plain ticket.op ≡ true
      → resolve (codes ticket.path) ≡ some path
      → is_stale ticket.op ticket.base_hash (hash_of hash (files path)) ≡ false
      → Touches path files (apply_ticket os resolve hash ticket files)
  unfolding apply_ticket apply_at
  apply_ticket-Touches ticket files path plain r fresh =
      rw (r, fresh) (perform-Touches ticket.op path ticket.payload files plain)
