-- ===== src/Adapters/Overlay.antt =====
-- rolen-cliadapters/src/overlay.rs: the staging copy of the workspace, and the harvest of its changes
-- through the write queue. A directory is the list of its entries, as it is read; every entry is a file
-- or a directory. The files of the workspace are those of Runtime/Files, and a ticket is applied by
-- `apply_ticket` of Orchestrator/Apply; no one else writes meanwhile.
pub mod Changes
pub mod Mirror
mod Tests
use Prim.Native.String.{◌++◌ as concat}
use role_n.Prelude.{
  ℕ, ◌+◌, String, Bool, true, false, not, ◌||◌, Option, none, some, List, [], ◌∷◌, ◌++◌,
  if◌then◌else◌, ◌==◌, string_eq, option_eq, list_eq, nat_eq, contains,
}
use role_n.Core.Types.{
  Text, WriteOp, create, replace, delete, TicketState, queued, applied, rejected, WriteTicket,
}
use role_n.Core.Text.{codes}
use role_n.Runtime.Files.{FilePath, Files, Os}
use role_n.Orchestrator.Apply.{Run, returns, panics, hash_of, apply_ticket}

pub data Entries : Type 0 where
  end : Entries
  file : String → Text → Entries → Entries
  dir : String → Entries → Entries → Entries

abbrev pub skip_dirs : List String
skip_dirs = ".git" ∷ "target" ∷ "node_modules" ∷ ".rolen-overlay" ∷ []

-- `copy_dir`
pub copy_dir : Entries → Entries
copy_dir end = end
copy_dir (file name content rest) =
    let others = copy_dir rest in
    if contains skip_dirs name then others else file name content others
copy_dir (dir name below rest) =
    let inside = copy_dir below in
    let others = copy_dir rest in if contains skip_dirs name then others else dir name inside others

-- The path of an entry, from the root.
abbrev pub join : String → String → String
join path name = if path == "" then name else concat path (concat "/" name)

pub data Change : Type 0 where
  write : String → Text → Change
  remove : String → Change

abbrev pub rel_of : Change → String
rel_of (write rel content) = rel
rel_of (remove rel) = rel

-- `collect_writes`: the base file is read at the same path.
unfoldable pub collect_writes : (String → Option Text) → String → Entries → List Change
collect_writes read path end = []
collect_writes read path (file name content rest) =
    let others = collect_writes read path rest in
    if read (join path name) == some content
    then others
    else write (join path name) content ∷ others
collect_writes read path (dir name below rest) =
    collect_writes read (join path name) below ++ collect_writes read path rest

-- Every path of a directory and of those below it.
unfoldable pub paths : String → Entries → List String
paths path end = []
paths path (file name content rest) = join path name ∷ paths path rest
paths path (dir name below rest) = join path name ∷ paths (join path name) below ++ paths path rest

-- `collect_deletes`, with the paths that exist in the staging copy.
unfoldable pub collect_deletes : List String → String → Entries → List Change
collect_deletes staged path end = []
collect_deletes staged path (file name content rest) =
    let others = collect_deletes staged path rest in
    if contains skip_dirs name
    then others
    else (if contains staged (join path name) then others else remove (join path name) ∷ others)
collect_deletes staged path (dir name below rest) =
    let inside = collect_deletes staged (join path name) below in
    let others = collect_deletes staged path rest in
    if contains skip_dirs name then others else inside ++ others

pub record Harvest : Type 0 where
  pub applied : ℕ
  pub rejected : ℕ
  pub paths : List String

-- What the harvest uses: the calls of the operating system, the resolution of a path and its join to
-- the root, the hasher, and `String::from_utf8_lossy`.
pub record Workspace : Type 0 where
  pub os : Os
  pub resolve : Text → Option FilePath
  pub base_join : String → FilePath
  pub hash : Text → String
  pub from_utf8_lossy : Text → Text

module _ (ws : Workspace) where
  abbrev pub hash_at : Option FilePath → Files → Option String
  hash_at none files = none
  hash_at (some path) files = hash_of ws.hash (files path)

  pub hash_file : String → Files → Option String
  hash_file rel files = hash_at (ws.resolve (codes rel)) files

  abbrev op_for : Option Text → WriteOp
  op_for none = create
  op_for (some _) = replace

  abbrev base_hash_for : Option Text → Option String → Option String
  base_hash_for none hash = none
  base_hash_for (some _) hash = hash

  -- The ticket of a change; its id is the clock in nanoseconds, its time the clock.
  unfoldable pub ticket_for : String → String → ℕ → Change → Files → WriteTicket
  unfolding hash_file
  ticket_for id task_id ts (write rel content) files =
      let base_file = files (ws.base_join rel) in
      record {
        id = id;
        task_id = task_id;
        path = rel;
        op = op_for base_file;
        payload = ws.from_utf8_lossy content;
        base_hash = base_hash_for base_file (hash_file rel files);
        state = queued;
        ts = ts;
      }
  ticket_for id task_id ts (remove rel) files = record {
    id = id;
    task_id = task_id;
    path = rel;
    op = delete;
    payload = [];
    base_hash = none;
    state = queued;
    ts = ts;
  }

  abbrev counted : TicketState → Change → Harvest → Harvest
  counted applied ch h = record h { applied = h.applied + 1; paths = h.paths ++ rel_of ch ∷ [] }
  counted rejected ch h = record h { rejected = h.rejected + 1; paths = h.paths ++ rel_of ch ∷ [] }
  counted queued ch h = record h { paths = h.paths ++ rel_of ch ∷ [] }

  -- `wait`: an applier that dies answers as a rejection.
  abbrev pub waited : Run → Change → Harvest → Files → Harvest × Files
  waited (returns state files') ch h files = (counted state ch h, files')
  waited panics ch h files = (counted rejected ch h, files)

  -- The loop over the changes, with the ids that the clock gives.
  unfoldable pub harvest_changes :
      (ℕ → String) → String → ℕ → List Change → Harvest → Files → Harvest × Files
  unfolding ticket_for
  harvest_changes ids task_id ts [] h files = (h, files)
  harvest_changes ids task_id ts (ch ∷ changes) h files =
      let ticket = ticket_for (ids ts) task_id ts ch files in
      let (h', files') = waited (apply_ticket ws.os ws.resolve ws.hash ticket files) ch h files in
      harvest_changes ids task_id (ts + 1) changes h' files'

  abbrev pub changes_of : Entries → Entries → Files → List Change
  changes_of base staging files =
      collect_writes (λ rel. files (ws.base_join rel)) "" staging
      ++ collect_deletes (paths "" staging) "" base

  unfoldable pub harvest :
      (ℕ → String) → String → ℕ → (base staging : Entries) → Files → Harvest × Files
  unfolding harvest_changes collect_writes collect_deletes paths
  harvest ids task_id ts base staging files =
      harvest_changes ids task_id ts (changes_of base staging files)
        (record { applied = 0; rejected = 0; paths = [] }) files
