-- ===== src/Cli/RuleCommands/Valid.antt =====
-- What the commands of rolen-cli/src/main.rs on the rules leave: an invariant of the rules, and what
-- each command changes.
use role_n.Prelude.{
  String, Bool, true, false, not, ◌&&◌, ◌||◌, List, [], ◌∷◌, ◌++◌, ==_iff, nat_eq, list_eq,
  string_eq, contains, all, ◌≡◌, refl, arith, ap, sym, ◌∙◌, Bool-cases, inl, inr,
}
use role_n.Prelude.Keyed.{
  find_key, UniqueKeys, is_found, append-UniqueKeys, find_key-append, has_key-append,
}
use role_n.Core.Types.{Text}
use role_n.Core.Text.{codes, is_empty}
use role_n.Core.Rules.{Rule}
use role_n.Providers.Registry.{Provider}
use role_n.Cli.RuleCommands.{
  Seed, entry_text, seed_chain, rule_id, any_id, seeded_rule, seed, seed_all, has_slash,
}

-- The chain has an entry, and every entry a provider and a model.
abbrev pub usable : Rule → Bool
usable r = not (is_empty r.fallback_chain) && all has_slash r.fallback_chain

abbrev pub Valid : List Rule → Type 0
Valid rules = UniqueKeys rule_id rules × (all usable rules ≡ true)

pub append-Valid :
    (rules : List Rule) (new : Rule)
    → Valid rules
    → any_id new.id rules ≡ false
    → usable new ≡ true
    → Valid (rules ++ new ∷ [])
append-Valid rules new (u, l) h n = (append-UniqueKeys rule_id rules new u h, every rules l)
  where
    every : (rs : List Rule) → all usable rs ≡ true → all usable (rs ++ new ∷ []) ≡ true
    every [] a = ground (arith, n)
    every (r ∷ rs) a = ground (arith, a, every rs)

entry_text-has_slash : (e : String × String) → has_slash (entry_text e) ≡ true
entry_text-has_slash (p, m) = slash (codes p)
  where
    slash : (t : Text) → contains (t ++ b'/' ∷ codes m) b'/' ≡ true
    slash [] = refl
    slash (c ∷ t) = ground (arith, slash t)

seed_chain-has_slash :
    (reg : List Provider) (chain : List (String × String))
    → all has_slash (seed_chain reg chain) ≡ true
seed_chain-has_slash reg [] = refl
seed_chain-has_slash reg (e ∷ chain) =
    ground (arith, entry_text-has_slash e, seed_chain-has_slash reg chain)

seed-Valid :
    (reg : List Provider) (s : Seed) (rules : List Rule) → Valid rules → Valid (seed reg s rules)
unfolding seed
seed-Valid reg s rules v =
    let chain = seed_chain reg s.chain in
    elim (Bool-cases (is_empty chain)) [
      | inl e ↦ rw e v
      | inr e ↦ elim (Bool-cases (any_id (codes s.name) rules)) [
        | inl t ↦ rw (e, t) v
        | inr f ↦
            rw (e, f)
              (append-Valid rules (seeded_rule s chain) v f
                (ground (arith, e, seed_chain-has_slash reg s.chain)))
      ]
    ]

-- Every rule that was there still is the rule of its id.
abbrev pub Kept : List Rule → List Rule → Type 0
Kept rules rules' =
    (id : Text) → any_id id rules ≡ true → find_key rule_id id rules' ≡ find_key rule_id id rules

any_id-find_key :
    (id : Text) (rules : List Rule) → any_id id rules ≡ is_found rule_id (find_key rule_id id rules)
unfolding find_key
any_id-find_key id [] = refl
any_id-find_key id (r ∷ rules) = ground (arith, any_id-find_key id rules)

seed-Kept : (reg : List Provider) (s : Seed) (rules : List Rule) → Kept rules (seed reg s rules)
unfolding seed
seed-Kept reg s rules id h =
    let new = seeded_rule s (seed_chain reg s.chain) in
    elim (Bool-cases (any_id (codes s.name) rules)) [
      | inl t ↦ ground (arith, t)
      | inr f ↦
          ground (arith, f, h, ==_iff (codes s.name) id, find_key-append rule_id rules new id f)
    ]

Kept-any_id :
    (rules rules' : List Rule) (id : Text)
    → Kept rules rules'
    → any_id id rules ≡ true
    → any_id id rules' ≡ true
Kept-any_id rules rules' id k h =
    any_id-find_key id rules' ∙ ap (is_found rule_id) (k id h) ∙ sym (any_id-find_key id rules) ∙ h

pub seed_all-Valid :
    (reg : List Provider) (seeds : List Seed) (rules : List Rule)
    → Valid rules
    → Valid (seed_all reg seeds rules) × Kept rules (seed_all reg seeds rules)
unfolding seed_all
seed_all-Valid reg [] rules v = (v, λ id h. refl)
seed_all-Valid reg (s ∷ seeds) rules v =
    let (v', k) = seed_all-Valid reg seeds (seed reg s rules) (seed-Valid reg s rules v) in
    let k0 = seed-Kept reg s rules in
    (v', λ id h. k id (Kept-any_id rules (seed reg s rules) id k0 h) ∙ k0 id h)

-- There is nothing to seed.
settled : List Provider → Seed → List Rule → Bool
settled reg s rules = is_empty (seed_chain reg s.chain) || any_id (codes s.name) rules

settled-seed :
    (reg : List Provider) (s : Seed) (rules : List Rule) → settled reg s (seed reg s rules) ≡ true
unfolding seed settled
settled-seed reg s rules =
    let new = seeded_rule s (seed_chain reg s.chain) in
    ground
      (arith, ==_iff (codes s.name) (codes s.name), has_key-append rule_id rules new (codes s.name))

settled-Kept :
    (reg : List Provider) (s : Seed) (rules rules' : List Rule)
    → Kept rules rules'
    → settled reg s rules ≡ true
    → settled reg s rules' ≡ true
unfolding settled
settled-Kept reg s rules rules' k h = ground (arith, h, Kept-any_id rules rules' (codes s.name) k)

seed-settled :
    (reg : List Provider) (s : Seed) (rules : List Rule)
    → settled reg s rules ≡ true
    → seed reg s rules ≡ rules
unfolding seed settled
seed-settled reg s rules h = ground (arith, h)

seed_all-settled :
    (reg : List Provider) (seeds : List Seed) (rules : List Rule)
    → all (λ s. settled reg s rules) seeds ≡ true
    → seed_all reg seeds rules ≡ rules
unfolding seed_all
seed_all-settled reg [] rules h = refl
seed_all-settled reg (s ∷ seeds) rules h =
    let first : settled reg s rules ≡ true = ground (arith, h) in
    rw (seed-settled reg s rules first) (seed_all-settled reg seeds rules (ground (arith, h)))

all-settled :
    (reg : List Provider) (seeds : List Seed) (rules : List Rule)
    → Valid rules
    → all (λ s. settled reg s (seed_all reg seeds rules)) seeds ≡ true
unfolding seed_all
all-settled reg [] rules v = refl
all-settled reg (s ∷ seeds) rules v =
    let rules' = seed reg s rules in
    let v' = seed-Valid reg s rules v in
    let (_, k) = seed_all-Valid reg seeds rules' v' in
    let here = settled-Kept reg s rules' (seed_all reg seeds rules') k (settled-seed reg s rules) in
    ground (arith, here, all-settled reg seeds rules' v')

pub seed_all-twice :
    (reg : List Provider) (seeds : List Seed) (rules : List Rule)
    → Valid rules
    → seed_all reg seeds (seed_all reg seeds rules) ≡ seed_all reg seeds rules
seed_all-twice reg seeds rules v =
    seed_all-settled reg seeds (seed_all reg seeds rules) (all-settled reg seeds rules v)
