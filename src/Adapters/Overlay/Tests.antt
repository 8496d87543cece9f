-- ===== src/Adapters/Overlay/Tests.antt =====
-- A harvest of a changed, a new and a deleted file.
use role_n.Prelude.{
  String, ◌≡◌, refl, true, Option, none, some, List, [], ◌∷◌, ◌==◌, string_eq, if◌then◌else◌,
  option_eq, list_eq, nat_eq,
}
use role_n.Core.Types.{Text}
use role_n.Core.Text.{codes}
use role_n.Runtime.Files.{FilePath, Files, Os, path_beq}
use role_n.Adapters.Overlay.{Entries, end, file, dir, Change, write, remove, copy_dir, Workspace}

abbrev at : String → FilePath
at rel = record { dir = "/w"; stem = rel; ext = none }

abbrev os : Os
os = record {
  mkdir_ok = λ p. true;
  write_ok = λ p. true;
  torn = λ p old new. old;
  rename_ok = λ p q. true;
  remove_ok = λ p. true;
}

abbrev resolve : Text → Option FilePath
resolve t =
    if t == codes "a"
    then some (at "a")
    else (if t == codes "src/b"
        then some (at "src/b")
        else (if t == codes "c" then some (at "c") else none))

abbrev ws : Workspace
ws = record {
  os = os;
  resolve = resolve;
  base_join = at;
  hash = λ t. if t == codes "old" then "1" else "2";
  from_utf8_lossy = λ t. t;
}

abbrev base : Entries
base = file "a" (codes "old") (file "c" (codes "gone") (dir ".git" (file "head" [] end) end))

abbrev staging : Entries
staging = file "a" (codes "new") (dir "src" (file "b" (codes "more") end) end)

-- The staging copy leaves out the skipped names.
copied : copy_dir base ≡ file "a" (codes "old") (file "c" (codes "gone") end)
unfolding copy_dir
copied = refl

abbrev files : Files
files p =
    if path_beq p (at "a")
    then some (codes "old")
    else (if path_beq p (at "c") then some (codes "gone") else none)

abbrev changes : List Change
changes = write "a" (codes "new") ∷ write "src/b" (codes "more") ∷ remove "c" ∷ []
