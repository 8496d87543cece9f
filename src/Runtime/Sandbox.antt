-- ===== src/Runtime/Sandbox.antt =====
-- The sandbox of rolen-runtime/src/sink.rs: `sanitize_relative` and `resolve_in`, on a system whose
-- only separator is the slash. What exists and how symbolic links resolve is a parameter.
pub mod Inside
mod Tests
use role_n.Prelude.{
  ℕ, Bool, true, false, ◌&&◌, ◌||◌, Option, none, some, List, [], ◌∷◌, ◌++◌, map, if◌then◌else◌,
  eqb, ◌==◌, nat_eq, list_eq,
}
use role_n.Core.Types.{Text}
use role_n.Core.Text.{codes, split, starts_with}

pub data Component : Type 0 where
  root_dir cur_dir parent_dir : Component
  normal : Text → Component

-- A piece between two separators. An empty one, from a doubled or a final slash, counts as `.`.
abbrev pub component : Text → Component
component piece =
    if piece == [] || piece == codes "."
    then cur_dir
    else if piece == codes ".."
    then parent_dir
    else normal piece

abbrev pub has_root : Text → Bool
has_root path = starts_with (codes "/") path

pub components : Text → List Component
unfolding split
components path = map component (split b'/' path)

-- `PathBuf::pop`, `none` for its `false`.
pub pop : List Text → Option (List Text)
pop [] = none
pop (x ∷ []) = some []
pop (x ∷ y ∷ rest) = elim (pop (y ∷ rest)) [ none ↦ none | some front ↦ some (x ∷ front) ]

pub push_all : List Text → List Component → Option (List Text)
unfolding pop
push_all out [] = some out
push_all out (cur_dir ∷ comps) = push_all out comps
push_all out (normal s ∷ comps) = push_all (out ++ s ∷ []) comps
push_all out (root_dir ∷ comps) = none
push_all out (parent_dir ∷ comps) = elim (pop out) [
  | none ↦ none
  | some front ↦ push_all front comps
]

pub sanitize_relative : Text → Option (List Text)
unfolding push_all components starts_with
sanitize_relative path = if has_root path then none else push_all [] (components path)

-- `path.replace('\\', "/")`
abbrev pub normalized : Text → Text
normalized path = map (λ c. if eqb c 0x5c then b'/' else c) path

-- `Ok`, the sandbox error, and an error of the system.
pub data Resolved : Type 0 where
  inside : List Text → Resolved
  escape io_error : Resolved

pub record Links : Type 0 where
  pub exists : List Text → Bool
  pub canonicalize : List Text → Option (List Text)

abbrev or_self : List Text → Option (List Text) → List Text
or_self path none = path
or_self path (some real) = real

-- `root.canonicalize().unwrap_or_else(|_| root.to_path_buf())`
abbrev pub root_of : Links → List Text → List Text
root_of links root = or_self root (links.canonicalize root)

abbrev pub is_below : List Text → List Text → Bool
is_below [] path = true
is_below (x ∷ root) [] = false
is_below (x ∷ root) (y ∷ path) = x == y && is_below root path

real_path : List Text → Option (List Text) → Resolved
real_path root none = io_error
real_path root (some real) = if is_below root real then inside real else escape

resolve_relative : Links → List Text → Option (List Text) → Resolved
unfolding real_path
resolve_relative links root none = escape
resolve_relative links root (some relative) =
    let target = root ++ relative in
    if links.exists target then real_path root (links.canonicalize target) else inside target

pub resolve_in : Links → List Text → Text → Resolved
unfolding resolve_relative sanitize_relative
resolve_in links root path =
    resolve_relative links (root_of links root) (sanitize_relative (normalized path))
