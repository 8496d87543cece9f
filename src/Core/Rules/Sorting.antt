-- ===== src/Core/Rules/Sorting.antt =====
-- The order in which the rules of a role are tried, in rules.rs.
use mathlib.Core.List.{Perm}
use mathlib.Core.List.Perm
use role_n.Prelude.{
  ℕ, ◌+◌, ◌^◌, ◌≤◌, ◌<◌, Bool, ◌≡◌, refl, subst, ◌∙◌, ap, ==_iff, List, [], ◌∷◌, ◌++◌, map, leb,
  nat_eq, list_eq, filter, Bool-cases, inl, inr, arith, All,
}
use role_n.Core.Types.{Text}
use role_n.Core.Rules.{
  Rule, sort_key, insert_rule, sort_rules, has_role, for_role, promote, merged_with,
}

insert_rule-Perm : (r : Rule) (rules : List Rule) → Perm (r ∷ rules) (insert_rule r rules)
unfolding insert_rule
insert_rule-Perm r [] = Perm.refl (r ∷ [])
insert_rule-Perm r (s ∷ rules) = elim (Bool-cases (leb (sort_key r) (sort_key s))) [
  | inl e ↦ rw e (Perm.refl (r ∷ s ∷ rules))
  | inr e ↦ rw e (Perm.trans (Perm.swap s r rules) (Perm.cons s (insert_rule-Perm r rules)))
]

sort_rules-Perm : (rules : List Rule) → Perm rules (sort_rules rules)
unfolding sort_rules
sort_rules-Perm [] = Perm.refl []
sort_rules-Perm (r ∷ rules) =
    Perm.trans (Perm.cons r (sort_rules-Perm rules)) (insert_rule-Perm r (sort_rules rules))

insert_rule-All :
    (P : Rule → Type 0) (r : Rule) (rules : List Rule)
    → P r
    → All P rules
    → All P (insert_rule r rules)
unfolding insert_rule
insert_rule-All P r [] p a = (p, tt)
insert_rule-All P r (s ∷ rules) p (q, a) = elim (Bool-cases (leb (sort_key r) (sort_key s))) [
  | inl e ↦ rw e (p, (q, a))
  | inr e ↦ rw e (q, insert_rule-All P r rules p a)
]

sort_rules-All : (P : Rule → Type 0) (rules : List Rule) → All P rules → All P (sort_rules rules)
unfolding sort_rules
sort_rules-All P [] a = tt
sort_rules-All P (r ∷ rules) (p, a) =
    insert_rule-All P r (sort_rules rules) p (sort_rules-All P rules a)

-- Each rule has at least the priority of every later one.
abbrev pub Descending : List Rule → Type 0
Descending [] = Unit
Descending (r ∷ rules) = All (λ (s : Rule). s.priority ≤ r.priority) rules × Descending rules

-- A priority above i32::MIN.
abbrev pub Proper : Rule → Type 0
Proper r = (0 < r.priority) × (r.priority < 2 ^ 32)

All-le_trans :
    (m n : ℕ) (rules : List Rule)
    → m ≤ n
    → All (λ (s : Rule). s.priority ≤ m) rules
    → All (λ (s : Rule). s.priority ≤ n) rules
All-le_trans m n [] l a = tt
All-le_trans m n (s ∷ rules) l (p, a) = (omega arith, All-le_trans m n rules l a)

insert_rule-Descending :
    (r : Rule) (rules : List Rule)
    → Proper r
    → All Proper rules
    → Descending rules
    → Descending (insert_rule r rules)
unfolding insert_rule
insert_rule-Descending r [] p a d = (tt, tt)
insert_rule-Descending r (s ∷ rules) p (q, a) (below, d) =
    elim (Bool-cases (leb (sort_key r) (sort_key s))) [
      | inl e ↦
          let le : s.priority ≤ r.priority = ground (arith, e, p, q) in
          rw e ((le, All-le_trans s.priority r.priority rules le below), (below, d))
      | inr e ↦
          let le : r.priority ≤ s.priority = ground (arith, e, p, q) in
          rw e (
            insert_rule-All (λ (t : Rule). t.priority ≤ s.priority) r rules le below,
            insert_rule-Descending r rules p a d,
          )
    ]

sort_rules-Descending : (rules : List Rule) → All Proper rules → Descending (sort_rules rules)
unfolding sort_rules
sort_rules-Descending [] a = tt
sort_rules-Descending (r ∷ rules) (p, a) =
    insert_rule-Descending r (sort_rules rules) p (sort_rules-All Proper rules a)
      (sort_rules-Descending rules a)

filter-All :
    (P : Rule → Type 0) (f : Rule → Bool) (rules : List Rule) → All P rules → All P (filter f rules)
filter-All P f [] a = tt
filter-All P f (r ∷ rules) (p, a) = elim (Bool-cases (f r)) [
  | inl e ↦ rw e (p, filter-All P f rules a)
  | inr e ↦ rw e (filter-All P f rules a)
]

-- The candidates for a role are exactly the rules of that role, each as often as it is listed, from
-- the highest priority to the lowest, if no priority is i32::MIN (whose negation overflows).
pub for_role_order :
    (rules : List Rule) (role : Text)
    → All Proper rules
    → Perm (filter (has_role role) rules) (for_role rules role) × Descending (for_role rules role)
unfolding for_role
for_role_order rules role a = (
  sort_rules-Perm (filter (has_role role) rules),
  sort_rules-Descending (filter (has_role role) rules) (filter-All Proper (has_role role) rules a),
)

-- Rules whose keys are not above those that follow stay in front.
insert_rule-append :
    (r : Rule) (front back : List Rule)
    → All (λ (s : Rule). sort_key r ≤ sort_key s) back
    → insert_rule r (front ++ back) ≡ insert_rule r front ++ back
unfolding insert_rule
insert_rule-append r [] [] a = refl
insert_rule-append r [] (s ∷ back) (l, a) = ground (arith, l)
insert_rule-append r (f ∷ front) back a = elim (Bool-cases (leb (sort_key r) (sort_key f))) [
  | inl e ↦ rw e refl
  | inr e ↦ rw e (ap (λ l. f ∷ l) (insert_rule-append r front back a))
]

abbrev Above : List Rule → Rule → Type 0
Above back r = All (λ (s : Rule). sort_key r ≤ sort_key s) back

sort_rules-append :
    (front back : List Rule)
    → All (Above back) front
    → sort_rules (front ++ back) ≡ sort_rules front ++ sort_rules back
unfolding sort_rules
sort_rules-append [] back a = refl
sort_rules-append (r ∷ front) back (p, a) =
    ap (insert_rule r) (sort_rules-append front back a)
    ∙ insert_rule-append r (sort_rules front) (sort_rules back)
        (sort_rules-All (λ (s : Rule). sort_key r ≤ sort_key s) back p)

filter-append :
    (f : Rule → Bool) (xs ys : List Rule) → filter f (xs ++ ys) ≡ filter f xs ++ filter f ys
filter-append f [] ys = refl
filter-append f (x ∷ xs) ys = elim (Bool-cases (f x)) [
  | inl e ↦ rw e (ap (λ l. x ∷ l) (filter-append f xs ys))
  | inr e ↦ rw e (filter-append f xs ys)
]

-- The bonus does not overflow, and the override comes out at least as high as each of the rules.
abbrev pub Outranks : List Rule → Rule → Type 0
Outranks rules o =
    (o.priority + 1000 < 2 ^ 32)
    × All (λ (g : Rule). Proper g × (g.priority ≤ o.priority + 1000)) rules

promote-Above : (o : Rule) (rules : List Rule) → Outranks rules o → Above rules (promote o)
promote-Above o [] h = tt
promote-Above o (g ∷ rules) (b, ((p, l), a)) =
    (omega (arith, p, l, b), promote-Above o rules (b, a))

promote-All :
    (rules overrides : List Rule)
    → All (Outranks rules) overrides
    → All (Above rules) (map promote overrides)
promote-All rules [] a = tt
promote-All rules (o ∷ overrides) (h, a) = (promote-Above o rules h, promote-All rules overrides a)

-- The overrides of a project are tried before all global rules of the role, if no global rule of it
-- has a priority that is more than 1000 above that of an override, and no bonus overflows.
pub overrides_first :
    (rules overrides : List Rule) (role : Text)
    → All (Outranks (filter (has_role role) rules)) (filter (has_role role) overrides)
    → for_role (merged_with rules overrides) role
      ≡ for_role (map promote overrides) role ++ for_role rules role
unfolding for_role merged_with
overrides_first rules overrides role a =
    ap sort_rules (filter-append (has_role role) (map promote overrides) rules)
    ∙ sort_rules-append (filter (has_role role) (map promote overrides))
        (filter (has_role role) rules)
        (subst (All (Above (filter (has_role role) rules))) (filter-promote overrides)
          (promote-All (filter (has_role role) rules) (filter (has_role role) overrides) a))
  where
    filter-promote :
        (l : List Rule)
        → map promote (filter (has_role role) l) ≡ filter (has_role role) (map promote l)
    filter-promote [] = refl
    filter-promote (o ∷ l) = ground (arith, filter-promote l)

-- A global rule whose priority is more than 1000 above that of the override is tried first.
pub override_loses :
    (global override : Rule) (role : Text)
    → global.role ≡ role
    → override.role ≡ role
    → global.priority < 2 ^ 32
    → override.priority + 1000 < global.priority
    → for_role (merged_with (global ∷ []) (override ∷ [])) role ≡ global ∷ promote override ∷ []
unfolding for_role merged_with sort_rules insert_rule
override_loses global override role g o b l =
    ground (arith, g, o, b, l, ==_iff global.role role, ==_iff override.role role)
