-- ===== src/Prelude/Dict.antt =====
-- `HashMap` and `HashSet` as association lists and lists. Nothing in the modelled code depends on
-- the order in which a map is iterated, unless its module says so.
use mathlib.Core.Path.{◌≡◌, refl}
use mathlib.Core.Bool.{false, ◌||◌}
use mathlib.Core.Option.{Option, none, some}
use mathlib.Core.List.{List, [], ◌∷◌}
use native.Mathlib.Omega.{arith}
use role_n.Prelude.Tests.{if◌then◌else◌}
use role_n.Prelude.Keys.{Eq, ◌==◌, ==_iff, contains}

module _ {ℓ κ} {K : Type ℓ} {V : Type κ} ⦃e : Eq K⦄ where
  unfoldable pub lookup : K → List (K × V) → Option V
  lookup k [] = none
  lookup k ((j, v) ∷ m) = if j == k then some v else lookup k m

  unfoldable pub insert : K → V → List (K × V) → List (K × V)
  insert k v [] = (k, v) ∷ []
  insert k v (entry ∷ m) =
      let rest = insert k v m in if entry.0 == k then (k, v) ∷ m else entry ∷ rest

  unfoldable pub remove : K → List (K × V) → List (K × V)
  remove k [] = []
  remove k ((j, w) ∷ m) = let rest = remove k m in if j == k then rest else (j, w) ∷ rest

  pub lookup-insert :
      (set get : K) (v : V) (m : List (K × V))
      → lookup get (insert set v m) ≡ (if set == get then some v else lookup get m)
  unfolding insert lookup
  lookup-insert set get v [] = refl
  lookup-insert set get v (entry ∷ m) =
      ground
        (arith, ==_iff set get, ==_iff entry.0 set, ==_iff entry.0 get, lookup-insert set get v m)

  pub lookup-remove :
      (k j : K) (m : List (K × V)) → lookup j (remove k m) ≡ (if k == j then none else lookup j m)
  unfolding lookup remove
  lookup-remove k j [] = ground arith
  lookup-remove k j ((i, w) ∷ m) =
      ground (arith, ==_iff k j, ==_iff i k, ==_iff i j, lookup-remove k j m)

-- A `HashSet`: `insert` and `remove`, read by `contains`.
module _ {ℓ} {K : Type ℓ} ⦃e : Eq K⦄ where
  unfoldable pub add : K → List K → List K
  add k s = if contains s k then s else k ∷ s

  unfoldable pub discard : K → List K → List K
  discard k [] = []
  discard k (j ∷ s) = let rest = discard k s in if j == k then rest else j ∷ rest

  pub contains-add : (k j : K) (s : List K) → contains (add k s) j ≡ (k == j || contains s j)
  unfolding add
  contains-add k j s = ground (arith, ==_iff k j)

  pub contains-discard :
      (k j : K) (s : List K) → contains (discard k s) j ≡ (if k == j then false else contains s j)
  unfolding discard
  contains-discard k j [] = ground arith
  contains-discard k j (i ∷ s) =
      ground (arith, ==_iff k j, ==_iff i k, ==_iff i j, contains-discard k j s)
