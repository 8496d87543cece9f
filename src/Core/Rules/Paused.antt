-- ===== src/Core/Rules/Paused.antt =====
-- The paused roles of rolen-core/src/rules.rs: a file with a sorted list of roles, which is empty when
-- it cannot be read.
use role_n.Prelude.{
  Bool, true, false, not, ◌||◌, List, [], ◌∷◌, ◌++◌, if◌then◌else◌, eqb, ltb, ◌==◌, ==_iff, nat_eq,
  list_eq, contains, filter, ◌≡◌, refl, arith, ◌∙◌, Bool-cases, inl, inr,
}
use role_n.Core.Types.{Text}
use role_n.Providers.{Disk, missing, unreadable, holds, Writes, save}

-- The order of texts: by their characters from the left.
unfoldable pub text_le : Text → Text → Bool
text_le [] b = true
text_le (c ∷ a) [] = false
text_le (c ∷ a) (d ∷ b) = let rest = text_le a b in if eqb c d then rest else ltb c d

unfoldable pub insert_role : Text → List Text → List Text
unfolding text_le
insert_role r [] = r ∷ []
insert_role r (s ∷ roles) =
    let rest = insert_role r roles in if text_le r s then r ∷ s ∷ roles else s ∷ rest

-- `sort`
unfoldable pub sort_roles : List Text → List Text
unfolding insert_role
sort_roles [] = []
sort_roles (r ∷ roles) = insert_role r (sort_roles roles)

unfoldable pub load_paused : Disk (List Text) → List Text
load_paused missing = []
load_paused unreadable = []
load_paused (holds roles) = roles

unfoldable pub is_role_paused : Text → Disk (List Text) → Bool
unfolding load_paused
is_role_paused role file = contains (load_paused file) role

abbrev pushed : Bool → Text → List Text → List Text
pushed false role roles = roles
pushed true role roles = roles ++ role ∷ []

-- Whether the write succeeds, and the file after it.
unfoldable pub set_role_paused :
    Writes (List Text) → Text → Bool → Disk (List Text) → Bool × Disk (List Text)
unfolding load_paused sort_roles
set_role_paused w role paused file =
    let others = filter (λ r. not (r == role)) (load_paused file) in
    save w (sort_roles (pushed paused role others)) file

contains-insert_role :
    (r : Text) (roles : List Text) (j : Text)
    → contains (insert_role r roles) j ≡ ((r == j) || contains roles j)
unfolding insert_role
contains-insert_role r [] j = ground arith
contains-insert_role r (s ∷ roles) j = ground (arith, contains-insert_role r roles j)

contains-sort_roles :
    (roles : List Text) (j : Text) → contains (sort_roles roles) j ≡ contains roles j
unfolding sort_roles
contains-sort_roles [] j = refl
contains-sort_roles (r ∷ roles) j =
    contains-insert_role r (sort_roles roles) j ∙ ground (arith, contains-sort_roles roles j)

contains-pushed :
    (b : Bool) (role : Text) (roles : List Text) (j : Text)
    → contains (pushed b role (filter (λ r. not (r == role)) roles)) j
      ≡ (if role == j then b else contains roles j)
contains-pushed false role [] j = ground arith
contains-pushed true role [] j = ground arith
contains-pushed false role (r ∷ roles) j =
    ground (arith, ==_iff r role, ==_iff r j, ==_iff role j, contains-pushed false role roles j)
contains-pushed true role (r ∷ roles) j =
    ground (arith, ==_iff r role, ==_iff r j, ==_iff role j, contains-pushed true role roles j)

-- A role that is paused or resumed has that state when the write succeeds, and every other role has
-- the state that it had.
pub set_role_paused_lem :
    (w : Writes (List Text)) (role : Text) (b : Bool) (file : Disk (List Text)) (j : Text)
    → (set_role_paused w role b file).0 ≡ true
    → is_role_paused j (set_role_paused w role b file).1
      ≡ (if role == j then b else is_role_paused j file)
unfolding set_role_paused is_role_paused load_paused
set_role_paused_lem w role b file j h =
    let roles = sort_roles (pushed b role (filter (λ r. not (r == role)) (load_paused file))) in
    elim (Bool-cases (w.write_ok roles)) [
      | inl e ↦ rw e (contains-sort_roles _ j ∙ contains-pushed b role (load_paused file) j)
      | inr e ↦ absurd (ground (arith, h, e))
    ]
