-- ===== src/Adapters/Overlay/Changes.antt =====
-- The changes that overlay.rs finds, and the harvest of all of them.
use role_n.Prelude.{
  String, ◌≡◌, true, Option, none, some, List, [], string_eq, option_eq, list_eq, nat_eq, contains,
  ◌⊎◌,
}
use role_n.Core.Types.{Text}
use role_n.Runtime.Files.{Files}
use role_n.Adapters.Overlay.{Entries, end, file, dir, skip_dirs, join, paths, Harvest, Workspace}

module _ (ws : Workspace) (files files' : Files) where
  -- Every file of the staging copy: the workspace has its content now, or had it before.
  abbrev pub Staged : String → Entries → Type 0
  Staged path end = Unit
  Staged path (file name content rest) =
      ((files' (ws.base_join (join path name)) ≡ some (ws.from_utf8_lossy content))
        ⊎ (files (ws.base_join (join path name)) ≡ some content))
      × Staged path rest
  Staged path (dir name below rest) = Staged (join path name) below × Staged path rest

  -- Every file of the base: it is of a name that is skipped, is in the staging copy, or is gone.
  abbrev pub Dropped : List String → String → Entries → Type 0
  Dropped staged path end = Unit
  Dropped staged path (file name content rest) =
      ((contains skip_dirs name ≡ true)
        ⊎ (contains staged (join path name) ≡ true)
        ⊎ (files' (ws.base_join (join path name)) ≡ none))
      × Dropped staged path rest
  Dropped staged path (dir name below rest) =
      ((contains skip_dirs name ≡ true) ⊎ Dropped staged (join path name) below)
      × Dropped staged path rest

  abbrev read : String → Option Text
  read rel = files (ws.base_join rel)

abbrev no_harvest : Harvest
no_harvest = record { applied = 0; rejected = 0; paths = [] }
