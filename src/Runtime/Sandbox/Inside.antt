-- ===== src/Runtime/Sandbox/Inside.antt =====
-- What `sanitize_relative` lets through and what `resolve_in` returns, in sink.rs.
use role_n.Prelude.{
  ℕ, zero, suc, ◌≡◌, ◌≢◌, ◌↔◌, ◌⊎◌, refl, subst, Bool, true, false, ◌||◌, Option, none, some, List,
  [], ◌∷◌, ◌++◌, map, ◌==◌, ==_iff, ==_refl, contains, nat_eq, list_eq, length, length-append, All,
  Bool-cases, inl, inr, arith,
}
use role_n.Core.Types.{Text}
use role_n.Core.Text.{codes, split}
use role_n.Core.Text.Split.{split-free}
use role_n.Runtime.Sandbox.{
  Component, root_dir, cur_dir, parent_dir, normal, component, components, has_root, pop, push_all,
  sanitize_relative, normalized, Links, inside, root_of, is_below, real_path, resolve_relative,
  resolve_in,
}

-- A name of a file or of a directory: not empty, `.` or `..`, and without a slash.
abbrev pub Plain : Text → Type 0
Plain s = (s ≢ []) × (s ≢ codes ".") × (s ≢ codes "..") × (contains s b'/' ≡ false)

PlainComponent : Component → Type 0
PlainComponent (normal s) = Plain s
PlainComponent _ = Unit

component-Plain : (piece : Text) → contains piece b'/' ≡ false → PlainComponent (component piece)
unfolding PlainComponent
component-Plain piece free = elim (Bool-cases (piece == [] || piece == codes ".")) [
  | inl e ↦ rw e tt
  | inr e ↦ elim (Bool-cases (piece == codes "..")) [
    | inl f ↦ rw (e, f) tt
    | inr f ↦
        rw (e, f)
          (
            λ q. ground (arith, ==_iff piece [], e, q),
            λ q. ground (arith, ==_iff piece (codes "."), e, q),
            λ q. ground (arith, ==_iff piece (codes ".."), f, q),
            free,
          )
  ]
]

pop-All : (out front : List Text) → pop out ≡ some front → All Plain out → All Plain front
unfolding pop
pop-All [] front e a = cc
pop-All (x ∷ []) front e a = let same : [] ≡ front = cc in subst (All Plain) same tt
pop-All (x ∷ y ∷ rest) front e (p, a) =
    by_pop (pop (y ∷ rest)) refl (λ f q. pop-All (y ∷ rest) f q a)
  where
    by_pop :
        (o : Option (List Text))
        → pop (y ∷ rest) ≡ o
        → ((f : List Text) → pop (y ∷ rest) ≡ some f → All Plain f)
        → All Plain front
    by_pop none q rec = absurd (ground (arith, e, q))
    by_pop (some f) q rec =
        let end : some (x ∷ f) ≡ some front = ground (arith, e, q) in
        let same : x ∷ f ≡ front = cc in subst (All Plain) same (p, rec f q)

snoc-All : (out : List Text) (s : Text) → All Plain out → Plain s → All Plain (out ++ s ∷ [])
snoc-All [] s a p = (p, tt)
snoc-All (x ∷ out) s (q, a) p = (q, snoc-All out s a p)

push_all-All :
    (out : List Text) (comps : List Component) (end : List Text)
    → push_all out comps ≡ some end
    → All Plain out
    → All PlainComponent comps
    → All Plain end
unfolding push_all PlainComponent
push_all-All out [] end e a c = let same : out ≡ end = cc in subst (All Plain) same a
push_all-All out (cur_dir ∷ comps) end e a (_, c) = push_all-All out comps end e a c
push_all-All out (normal s ∷ comps) end e a (p, c) =
    push_all-All (out ++ s ∷ []) comps end e (snoc-All out s a p) c
push_all-All out (root_dir ∷ comps) end e a c = cc
push_all-All out (parent_dir ∷ comps) end e a (_, c) =
    by_pop (pop out) refl (λ f q b. push_all-All f comps end q b c)
  where
    by_pop :
        (o : Option (List Text))
        → pop out ≡ o
        → ((f : List Text) → push_all f comps ≡ some end → All Plain f → All Plain end)
        → All Plain end
    by_pop none q rec = absurd (ground (arith, e, q))
    by_pop (some f) q rec = rec f (ground (arith, e, q)) (pop-All out f q a)

-- A climb above the start: at some point more `..` than names.
abbrev pub climbs : ℕ → List Component → Bool
climbs depth [] = false
climbs depth (cur_dir ∷ comps) = climbs depth comps
climbs depth (normal _ ∷ comps) = climbs (suc depth) comps
climbs depth (root_dir ∷ comps) = true
climbs zero (parent_dir ∷ comps) = true
climbs (suc depth) (parent_dir ∷ comps) = climbs depth comps

pop-length :
    (x : Text) (out : List Text)
    → (front : List Text) × (pop (x ∷ out) ≡ some front) × (length front ≡ length out)
unfolding pop
pop-length x [] = ([], refl, refl)
pop-length x (y ∷ rest) =
    let (front, e, l) = pop-length y rest in (x ∷ front, rw e refl, omega arith)

abbrev is_none : Option (List Text) → Bool
is_none none = true
is_none (some _) = false

push_all-climbs :
    (out : List Text) (comps : List Component)
    → is_none (push_all out comps) ≡ climbs (length out) comps
unfolding push_all
push_all-climbs out [] = refl
push_all-climbs out (cur_dir ∷ comps) = push_all-climbs out comps
push_all-climbs out (normal s ∷ comps) =
    let l : length (out ++ s ∷ []) ≡ suc (length out) = omega (arith, length-append out (s ∷ [])) in
    subst (λ n. is_none (push_all (out ++ s ∷ []) comps) ≡ climbs n comps) l
      (push_all-climbs (out ++ s ∷ []) comps)
push_all-climbs out (root_dir ∷ comps) = refl
push_all-climbs [] (parent_dir ∷ comps) = unfold pop in refl
push_all-climbs (x ∷ out) (parent_dir ∷ comps) =
    let (front, e, l) = pop-length x out in
    ground (
      arith,
      e,
      subst (λ n. is_none (push_all front comps) ≡ climbs n comps) l (push_all-climbs front comps),
    )

components-Plain :
    (pieces : List Text)
    → All (λ (piece : Text). contains piece b'/' ≡ false) pieces
    → All PlainComponent (map component pieces)
components-Plain [] a = tt
components-Plain (piece ∷ pieces) (p, a) = (component-Plain piece p, components-Plain pieces a)

is_none-some : (o : Option (List Text)) → is_none o ≡ true → o ≡ none
is_none-some none e = refl
is_none-some (some x) e = cc

-- A path that is let through has only names of files and directories, so joined to the root it stays
-- below it; and exactly those paths are refused that begin with a slash or climb, at some point, above
-- their start.
pub sanitize_relative_lem :
    (path : Text)
    → ((out : List Text) → sanitize_relative path ≡ some out → All Plain out)
      × ((sanitize_relative path ≡ none) ↔ ((has_root path || climbs 0 (components path)) ≡ true))
unfolding sanitize_relative components
sanitize_relative_lem path = elim (Bool-cases (has_root path)) [
  | inl r ↦ (λ out e. absurd (ground (arith, e, r)), ground (arith, r))
  | inr r ↦
      let comps = components-Plain (split b'/' path) (split-free b'/' path) in
      let count = push_all-climbs [] (components path) in
      (
        λ out e. push_all-All [] (components path) out (ground (arith, e, r)) tt comps,
        (
          λ e. ground (arith, e, r, count),
          λ e.
              let q = is_none-some (push_all [] (components path)) (ground (arith, count, e, r)) in
              ground (arith, r, q),
        ),
      )
]

is_below-append : (root path : List Text) → is_below root (root ++ path) ≡ true
is_below-append [] path = refl
is_below-append (x ∷ root) path = rw (==_refl x) (is_below-append root path)

-- Where a resolved path comes from: the system spelled it, or it is new.
abbrev pub Origin : Links → List Text → List Text → Type 0
Origin links root out =
    ((target : List Text) × (links.exists target ≡ true) × (links.canonicalize target ≡ some out))
    ⊎ ((relative : List Text) × (out ≡ root ++ relative)
        × All Plain relative
        × (links.exists out ≡ false))

resolve_target :
    (links : Links) (root relative out : List Text)
    → All Plain relative
    → resolve_relative links root (some relative) ≡ inside out
    → (is_below root out ≡ true) × Origin links root out
unfolding resolve_relative real_path
resolve_target links root relative out plain e =
    elim (Bool-cases (links.exists (root ++ relative))) [
      | inl x ↦ by_real (links.canonicalize (root ++ relative)) refl x
      | inr x ↦
          let end : inside (root ++ relative) ≡ inside out = ground (arith, e, x) in
          let same : root ++ relative ≡ out = cc in
          subst (λ z. (is_below root z ≡ true) × Origin links root z) same
            (is_below-append root relative, inr (relative, refl, plain, x))
    ]
  where
    by_real :
        (o : Option (List Text))
        → links.canonicalize (root ++ relative) ≡ o
        → links.exists (root ++ relative) ≡ true
        → (is_below root out ≡ true) × Origin links root out
    by_real none q x = absurd (ground (arith, e, q, x))
    by_real (some real) q x =
        let under : is_below root real ≡ true = ground (arith, e, q, x) in
        let end : inside real ≡ inside out = ground (arith, e, q, x, under) in
        let same : real ≡ out = cc in
        subst (λ z. (is_below root z ≡ true) × Origin links root z) same
          (under, inl (root ++ relative, x, q))

-- A resolved path begins with the root. Either it is how the system spells a path that exists, its
-- symbolic links followed, or nothing exists there and it is the root with names of files and
-- directories after it. Whether a directory on the way to a new file is a symbolic link is not
-- tested.
pub resolve_in_lem :
    (links : Links) (root : List Text) (path : Text) (out : List Text)
    → resolve_in links root path ≡ inside out
    → (is_below (root_of links root) out ≡ true) × Origin links (root_of links root) out
unfolding resolve_in
resolve_in_lem links root path out e = by_relative (sanitize_relative (normalized path)) refl e
  where
    by_relative :
        (o : Option (List Text))
        → sanitize_relative (normalized path) ≡ o
        → resolve_relative links (root_of links root) o ≡ inside out
        → (is_below (root_of links root) out ≡ true) × Origin links (root_of links root) out
    by_relative none q r = cc
    by_relative (some relative) q r =
        resolve_target links (root_of links root) relative out
          ((sanitize_relative_lem (normalized path)).0 relative q) r
