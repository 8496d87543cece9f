-- ===== src/Runtime/Sandbox/Tests.antt =====
-- The cases of `sanitize_relative_rejects_escapes` and `sanitize_relative_keeps_legitimate_paths` of
-- sink.rs, and the theorems there.
use role_n.Prelude.{◌≡◌, ◌↔◌, ◌||◌, refl, true, false, none, some, List, [], ◌∷◌, All}
use role_n.Core.Types.{Text}
use role_n.Core.Text.{codes}
use role_n.Runtime.Sandbox.{
  components, has_root, sanitize_relative, normalized, Links, inside, root_of, is_below, resolve_in,
}
use role_n.Runtime.Sandbox.Inside.{Plain, climbs, Origin, sanitize_relative_lem, resolve_in_lem}

rejects_escapes :
    (sanitize_relative (codes "../evil.txt") ≡ none)
    × (sanitize_relative (normalized (codes "..\\evil.txt")) ≡ none)
    × (sanitize_relative (codes "sub/../../evil.txt") ≡ none)
    × (sanitize_relative (codes "..") ≡ none)
    × (sanitize_relative (codes "/etc/passwd") ≡ none)
unfolding sanitize_relative
rejects_escapes = (refl, refl, refl, refl, refl)

keeps_legitimate_paths :
    (sanitize_relative (codes "./file.txt") ≡ some (codes "file.txt" ∷ []))
    × (sanitize_relative (normalized (codes "src\\main.rs"))
        ≡ some (codes "src" ∷ codes "main.rs" ∷ []))
    × (sanitize_relative (codes "a/b/../c.txt") ≡ some (codes "a" ∷ codes "c.txt" ∷ []))
unfolding sanitize_relative
keeps_legitimate_paths = (refl, refl, refl)

abbrev climbing : Text
climbing = codes "a/../b"

sanitize_relative_lem_example :
    ((out : List Text) → sanitize_relative climbing ≡ some out → All Plain out)
    × ((sanitize_relative climbing ≡ none)
        ↔ ((has_root climbing || climbs 0 (components climbing)) ≡ true))
sanitize_relative_lem_example = sanitize_relative_lem climbing

abbrev nothing : Links
nothing = record { exists = λ p. false; canonicalize = λ p. none }

abbrev root : List Text
root = codes "w" ∷ []

new_file : resolve_in nothing root climbing ≡ inside (codes "w" ∷ codes "b" ∷ [])
unfolding resolve_in
new_file = refl

resolve_in_lem_example :
    (is_below (root_of nothing root) (codes "w" ∷ codes "b" ∷ []) ≡ true)
    × Origin nothing (root_of nothing root) (codes "w" ∷ codes "b" ∷ [])
resolve_in_lem_example = resolve_in_lem nothing root climbing (codes "w" ∷ codes "b" ∷ []) new_file
