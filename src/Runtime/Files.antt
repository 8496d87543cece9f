-- ===== src/Runtime/Files.antt =====
-- The files below the workspace root as the sinks use them through std::fs. A resolved path is its
-- directory, its file stem and its extension, as `Path::with_extension` takes it apart. Which calls
-- of the operating system fail, and what a failed write leaves behind, is a parameter.
use role_n.Prelude.{
  String, ◌≡◌, ◌≢◌, ◌↔◌, Bool, false, true, ◌&&◌, Option, none, some, if◌then◌else◌, Eq, ◌==◌,
  ==_iff, ==_refl, string_eq, option_eq, arith,
}
use role_n.Core.Types.{Text}

pub record FilePath : Type 0 where
  pub dir : String
  pub stem : String
  pub ext : Option String

abbrev pub path_beq : FilePath → FilePath → Bool
path_beq p q = p.dir == q.dir && p.stem == q.stem && p.ext == q.ext

pub path_beq_iff : (p q : FilePath) → (path_beq p q ≡ true) ↔ (p ≡ q)
path_beq_iff p q = ground (arith, ==_iff p.dir q.dir, ==_iff p.stem q.stem, ==_iff p.ext q.ext)

instance abbrev pub path_eq : Eq FilePath
path_eq = record { same = path_beq; same_iff = path_beq_iff }

-- `path.with_extension("rolen-tmp")`
unfoldable pub temp_of : FilePath → FilePath
temp_of p = record p { ext = some "rolen-tmp" }

abbrev pub Files : Type 0
Files = FilePath → Option Text

unfoldable pub put : FilePath → Option Text → Files → Files
put p content files q = if p == q then content else files q

pub record Os : Type 0 where
  -- `create_dir_all` of the parent
  pub mkdir_ok : FilePath → Bool
  pub write_ok : FilePath → Bool
  -- what a failed write leaves at its path
  pub torn : FilePath → Option Text → Text → Option Text
  pub rename_ok : FilePath → FilePath → Bool
  pub remove_ok : FilePath → Bool

-- `std::fs::rename`: an error if the source is not there.
move : FilePath → FilePath → Option Text → Files → Bool × Files
move src dst none files = (false, files)
move src dst (some content) files = (true, put dst (some content) (put src none files))

module _ (os : Os) where
  unfoldable pub rename_file : FilePath → FilePath → Files → Bool × Files
  unfolding move put
  rename_file src dst files =
      if os.rename_ok src dst then move src dst (files src) files else (false, files)

  -- `if path.exists() { remove_file(path) } else { Ok(()) }`
  unfoldable pub delete_file : FilePath → Option Text → Files → Bool × Files
  unfolding put
  delete_file p none files = (true, files)
  delete_file p (some _) files = if os.remove_ok p then (true, put p none files) else (false, files)

  -- The first half of an atomic write: the parent directories and the temporary file.
  unfoldable pub stage : FilePath → Text → Files → Bool × Files
  unfolding put
  stage p content files =
      let tmp = temp_of p in
      if os.mkdir_ok p
      then (if os.write_ok tmp
          then (true, put tmp (some content) files)
          else (false, put tmp (os.torn tmp (files tmp) content) files))
      else (false, files)

  -- The second half: the rename over the path.
  unfoldable pub commit : FilePath → Files → Bool × Files
  unfolding rename_file
  commit p files = rename_file (temp_of p) p files

  unfoldable pub write_atomic : FilePath → Text → Files → Bool × Files
  unfolding stage commit
  write_atomic p content files =
      let (staged, files') = stage p content files in
      if staged then commit p files' else (false, files')

pub put-same : (p : FilePath) (c : Option Text) (files : Files) → put p c files p ≡ c
unfolding put
put-same p c files = rw (==_refl p)

pub put-other :
    (p q : FilePath) (c : Option Text) (files : Files) → p ≢ q → put p c files q ≡ files q
unfolding put
put-other p q c files h = ground (arith, path_beq_iff p q)
