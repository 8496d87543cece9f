-- ===== src/Prelude/Keyed.antt =====
-- Vectors of records with a key, as the settings files keep them: `iter().find`, `iter_mut().find` with
-- a `push` when there is none, and `retain`; and what a read by key says after each.
use Prim.Native.Nat.{◌≤◌}
use mathlib.Core.Path.{◌≡◌, refl}
use mathlib.Core.Bool.{Bool, true, false, not, ◌||◌}
use mathlib.Core.Option.{Option, none, some}
use mathlib.Core.List.{List, [], ◌∷◌, ◌++◌}
use native.Mathlib.Omega.{arith}
use role_n.Prelude.Tests.{if◌then◌else◌, eqb, any}
use role_n.Prelude.Keys.{Eq, ◌==◌, ==_iff}
use role_n.Prelude.Lists.{length, filter}

module _ {ℓ κ} {K : Type ℓ} {A : Type κ} ⦃e : Eq K⦄ (key : A → K) where
  unfoldable pub find_key : K → List A → Option A
  find_key k [] = none
  find_key k (x ∷ xs) = if key x == k then some x else find_key k xs

  -- The first record of the key is changed; if there is none, a new one is pushed.
  unfoldable pub change_key : K → (A → A) → A → List A → List A
  change_key k f new [] = new ∷ []
  change_key k f new (x ∷ xs) =
      let rest = change_key k f new xs in if key x == k then f x ∷ xs else x ∷ rest

  unfoldable pub retain_not : K → List A → List A
  retain_not k xs = filter (λ x. not (key x == k)) xs

  abbrev pub has_key : K → List A → Bool
  has_key k xs = any (λ x. key x == k) xs

  abbrev pub UniqueKeys : List A → Type 0
  UniqueKeys [] = Unit
  UniqueKeys (x ∷ xs) = (has_key (key x) xs ≡ false) × UniqueKeys xs

  abbrev pub changed : (A → A) → A → Option A → A
  changed f new none = new
  changed f new (some x) = f x

  pub find_key-change_key :
      (k : K) (f : A → A) (new : A) (xs : List A) (j : K)
      → key new ≡ k
      → ((x : A) → key x ≡ k → key (f x) ≡ k)
      → find_key j (change_key k f new xs)
        ≡ (if k == j then some (changed f new (find_key k xs)) else find_key j xs)
  unfolding find_key change_key
  find_key-change_key k f new [] j kn kf = ground (arith, kn)
  find_key-change_key k f new (x ∷ xs) j kn kf = ground (
    arith,
    kf x,
    ==_iff k j,
    ==_iff (key x) k,
    ==_iff (key x) j,
    find_key-change_key k f new xs j kn kf,
  )

  pub find_key-retain_not :
      (k j : K) (xs : List A)
      → find_key j (retain_not k xs) ≡ (if k == j then none else find_key j xs)
  unfolding find_key retain_not
  find_key-retain_not k j [] = ground arith
  find_key-retain_not k j (x ∷ xs) =
      ground (arith, ==_iff k j, ==_iff (key x) k, ==_iff (key x) j, find_key-retain_not k j xs)

  has_key-change_key :
      (k : K) (f : A → A) (new : A) (xs : List A) (j : K)
      → key new ≡ k
      → ((x : A) → key x ≡ k → key (f x) ≡ k)
      → has_key j (change_key k f new xs) ≡ (has_key j xs || (k == j))
  unfolding change_key
  has_key-change_key k f new [] j kn kf = ground (arith, kn)
  has_key-change_key k f new (x ∷ xs) j kn kf = ground (
    arith,
    kf x,
    ==_iff k j,
    ==_iff (key x) k,
    ==_iff (key x) j,
    has_key-change_key k f new xs j kn kf,
  )

  pub change_key-UniqueKeys :
      (k : K) (f : A → A) (new : A) (xs : List A)
      → key new ≡ k
      → ((x : A) → key x ≡ k → key (f x) ≡ k)
      → UniqueKeys xs
      → UniqueKeys (change_key k f new xs)
  unfolding change_key
  change_key-UniqueKeys k f new [] kn kf u = (refl, tt)
  change_key-UniqueKeys k f new (x ∷ xs) kn kf (h, u) = ground (
    arith,
    kf x,
    ==_iff k (key x),
    ==_iff (key x) k,
    has_key-change_key k f new xs (key x) kn kf,
    change_key-UniqueKeys k f new xs kn kf u,
  )

  has_key-retain_not :
      (k j : K) (xs : List A)
      → has_key j (retain_not k xs) ≡ (if k == j then false else has_key j xs)
  unfolding retain_not
  has_key-retain_not k j [] = ground arith
  has_key-retain_not k j (x ∷ xs) =
      ground (arith, ==_iff k j, ==_iff (key x) k, ==_iff (key x) j, has_key-retain_not k j xs)

  pub retain_not-UniqueKeys : (k : K) (xs : List A) → UniqueKeys xs → UniqueKeys (retain_not k xs)
  unfolding retain_not
  retain_not-UniqueKeys k [] u = tt
  retain_not-UniqueKeys k (x ∷ xs) (h, u) =
      ground
        (arith, ==_iff k (key x), has_key-retain_not k (key x) xs, retain_not-UniqueKeys k xs u)

  pub has_key-append :
      (xs : List A) (x : A) (k : K) → has_key k (xs ++ x ∷ []) ≡ (has_key k xs || (key x == k))
  has_key-append [] x k = ground arith
  has_key-append (y ∷ xs) x k = ground (arith, has_key-append xs x k)

  pub append-UniqueKeys :
      (xs : List A) (x : A) → UniqueKeys xs → has_key (key x) xs ≡ false → UniqueKeys (xs ++ x ∷ [])
  append-UniqueKeys [] x u h = (refl, tt)
  append-UniqueKeys (y ∷ xs) x (f, u) h = ground (
    arith,
    h,
    ==_iff (key y) (key x),
    ==_iff (key x) (key y),
    has_key-append xs x (key y),
    append-UniqueKeys xs x u,
  )

  pub find_key-append :
      (xs : List A) (x : A) (k : K)
      → has_key (key x) xs ≡ false
      → find_key k (xs ++ x ∷ []) ≡ (if key x == k then some x else find_key k xs)
  unfolding find_key
  find_key-append [] x k h = ground arith
  find_key-append (y ∷ xs) x k h =
      ground (
        arith,
        h,
        ==_iff (key y) (key x),
        ==_iff (key y) k,
        ==_iff (key x) k,
        find_key-append xs x k,
      )

  abbrev pub is_found : Option A → Bool
  is_found none = false
  is_found (some _) = true

  -- `retain` has removed something exactly if there was something of the key.
  pub length-retain_not :
      (k : K) (xs : List A)
      → (length (retain_not k xs) ≤ length xs)
        × (not (eqb (length (retain_not k xs)) (length xs)) ≡ is_found (find_key k xs))
  unfolding retain_not find_key
  length-retain_not k [] = (omega arith, refl)
  length-retain_not k (x ∷ xs) =
      let (l, s) = length-retain_not k xs in (ground (arith, l), ground (arith, l, s))
