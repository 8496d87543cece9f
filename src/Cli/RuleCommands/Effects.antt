-- ===== src/Cli/RuleCommands/Effects.antt =====
-- What `rule_cmd` of rolen-cli/src/main.rs does to the files, command by command.
use role_n.Prelude.{
  true, false, Option, none, some, List, [], ◌∷◌, ◌++◌, if◌then◌else◌, eqb, ◌==◌, nat_eq, list_eq,
  string_eq, length, all, ◌≡◌, refl, arith, Bool-cases, Option-cases, inl, inr,
}
use role_n.Prelude.Keyed.{
  find_key, retain_not, is_found, find_key-append, length-retain_not, retain_not-UniqueKeys,
  find_key-retain_not,
}
use role_n.Core.Types.{Text}
use role_n.Core.Text.{is_empty}
use role_n.Core.Rules.{Rule}
use role_n.Core.Rules.Paused.{is_role_paused, set_role_paused, set_role_paused_lem}
use role_n.Providers.{holds, load, Writes}
use role_n.Providers.Registry.{Provider}
use role_n.Cli.RuleCommands.{
  seeds, rule_id, any_id, seed_all, Addition, RuleAction, init, add, remove, pause, resume, Ended,
  done, unreadable_file, not_written, empty_chain, no_such_rule, bad_entry, id_taken, RuleFiles,
  chain_entries, has_slash, first_bad, added_rule, checked, rule_add, rule_cmd,
}
use role_n.Cli.RuleCommands.Valid.{
  usable, Valid, Kept, append-Valid, seed_all-Valid, seed_all-twice,
}

-- The rules on disk.
abbrev pub RulesAre : RuleFiles → List Rule → Type 0
RulesAre files rules = load [] files.rules ≡ some rules

-- What has been done when a command reports success, from the rules that were there.
abbrev pub Effect : RuleAction → RuleFiles → List Rule → RuleFiles → List Rule → Type 0
Effect init files rules files' rules' =
    (reg : List Provider) × (load [] files.registry ≡ some reg)
    × Kept rules rules'
    × (seed_all reg seeds rules' ≡ rules')
    × (files' ≡ record files { rules = holds rules' })
Effect (add a) files rules files' rules' =
    let new = added_rule a (chain_entries a.chain) in
    (any_id new.id rules ≡ false)
    × ((id : Text)
        → find_key rule_id id rules'
          ≡ (if new.id == id then some new else find_key rule_id id rules))
    × (files' ≡ record files { rules = holds rules' })
Effect (remove i) files rules files' rules' =
    (any_id i rules ≡ true)
    × ((id : Text)
        → find_key rule_id id rules' ≡ (if i == id then none else find_key rule_id id rules))
    × (files' ≡ record files { rules = holds rules' })
Effect (pause role) files rules files' rules' =
    (rules' ≡ rules)
    × ((j : Text)
        → is_role_paused j files'.paused
          ≡ (if role == j then true else is_role_paused j files.paused))
Effect (resume role) files rules files' rules' =
    (rules' ≡ rules)
    × ((j : Text)
        → is_role_paused j files'.paused
          ≡ (if role == j then false else is_role_paused j files.paused))

-- Success, a write that has failed, or an error that has changed nothing.
abbrev pub Ending : RuleAction → RuleFiles → List Rule → Ended × RuleFiles → Type 0
Ending action files rules (done, files') =
    (rules' : List Rule) × RulesAre files' rules'
    × Valid rules'
    × Effect action files rules files' rules'
Ending action files rules (not_written, files') = Unit
Ending action files rules (unreadable_file, files') = files' ≡ files
Ending action files rules (empty_chain, files') = files' ≡ files
Ending action files rules (no_such_rule, files') = files' ≡ files
Ending action files rules (bad_entry e, files') = files' ≡ files
Ending action files rules (id_taken id, files') = files' ≡ files

any_id-find_key :
    (id : Text) (rules : List Rule) → any_id id rules ≡ is_found rule_id (find_key rule_id id rules)
unfolding find_key
any_id-find_key id [] = refl
any_id-find_key id (r ∷ rules) = ground (arith, any_id-find_key id rules)

all-retain_not :
    (id : Text) (rules : List Rule)
    → all usable rules ≡ true
    → all usable (retain_not rule_id id rules) ≡ true
unfolding retain_not
all-retain_not id [] h = refl
all-retain_not id (r ∷ rules) h = ground (arith, h, all-retain_not id rules)

first_bad-all : (entries : List Text) → first_bad entries ≡ none → all has_slash entries ≡ true
first_bad-all [] h = refl
first_bad-all (e ∷ entries) h = ground (arith, h, first_bad-all entries)

module _ (w : Writes (List Rule)) (pw : Writes (List Text)) (files : RuleFiles) (rules : List Rule)
    (v : Valid rules) (there : RulesAre files rules) where
  init-Ending : Ending init files rules (rule_cmd w pw init files)
  unfolding rule_cmd
  init-Ending = elim (Option-cases (load [] files.registry)) [
    | inl e ↦ rw e refl
    | inr (reg, e) ↦
        let rules' = seed_all reg seeds rules in
        let (v', k) = seed_all-Valid reg seeds rules v in
        elim (Bool-cases (w.write_ok rules')) [
          | inl o ↦
              rw (e, there, o)
                (rules', refl, v', (reg, e, k, seed_all-twice reg seeds rules v, refl))
          | inr o ↦ rw (e, there, o) tt
        ]
  ]

  add_rule-Ending :
      (a : Addition) (bad : Option Text)
      → first_bad (chain_entries a.chain) ≡ bad
      → is_empty (chain_entries a.chain) ≡ false
      → Ending (add a) files rules (checked w pw a (chain_entries a.chain) bad files)
  add_rule-Ending a (some e) b n = refl
  add_rule-Ending a none b n =
      let new = added_rule a (chain_entries a.chain) in
      elim (Bool-cases (any_id new.id rules)) [
        | inl t ↦ rw (there, t) refl
        | inr f ↦
            let v' =
              append-Valid rules new v f
                (ground (arith, n, first_bad-all (chain_entries a.chain) b)) in
            elim (Bool-cases (w.write_ok (rules ++ new ∷ []))) [
              | inl o ↦
                  rw (there, f, o)
                    (
                      rules ++ new ∷ [],
                      refl,
                      v',
                      (f, λ id. find_key-append rule_id rules new id f, refl),
                    )
              | inr o ↦ rw (there, f, o) tt
            ]
      ]

  add-Ending : (a : Addition) → Ending (add a) files rules (rule_cmd w pw (add a) files)
  unfolding rule_cmd rule_add
  add-Ending a = elim (Bool-cases (is_empty (chain_entries a.chain))) [
    | inl e ↦ rw e refl
    | inr n ↦ rw n (add_rule-Ending a (first_bad (chain_entries a.chain)) refl n)
  ]

  remove-Ending : (id : Text) → Ending (remove id) files rules (rule_cmd w pw (remove id) files)
  unfolding rule_cmd
  remove-Ending id =
      let left = retain_not rule_id id rules in
      let (_, gone) = length-retain_not rule_id id rules in
      elim (Bool-cases (eqb (length left) (length rules))) [
        | inl e ↦ rw (there, e) refl
        | inr e ↦
            let was : any_id id rules ≡ true = ground (arith, e, gone, any_id-find_key id rules) in
            elim (Bool-cases (w.write_ok left)) [
              | inl o ↦
                  rw (there, e, o)
                    (
                      left,
                      refl,
                      (retain_not-UniqueKeys rule_id id rules v.0, all-retain_not id rules v.1),
                      (was, λ j. find_key-retain_not rule_id id j rules, refl),
                    )
              | inr o ↦ rw (there, e, o) tt
            ]
      ]

  pause-Ending : (role : Text) → Ending (pause role) files rules (rule_cmd w pw (pause role) files)
  unfolding rule_cmd
  pause-Ending role = elim (Bool-cases (set_role_paused pw role true files.paused).0) [
    | inl o ↦ rw o (rules, there, v, (refl, λ j. set_role_paused_lem pw role true files.paused j o))
    | inr o ↦ rw o tt
  ]

  resume-Ending :
      (role : Text) → Ending (resume role) files rules (rule_cmd w pw (resume role) files)
  unfolding rule_cmd
  resume-Ending role = elim (Bool-cases (set_role_paused pw role false files.paused).0) [
    | inl o ↦
        rw o (rules, there, v, (refl, λ j. set_role_paused_lem pw role false files.paused j o))
    | inr o ↦ rw o tt
  ]

-- The commands on the rules keep what routing needs: if the rules on disk have different ids and each
-- a chain of entries with a slash, so have the rules after every command that reports success. `init`
-- keeps every rule that was there, and would seed nothing a second time; `add` takes an id that is
-- free, and `remove` one that is taken, and the rules of the other ids stay; `pause` and `resume`
-- leave the rules, and change the state of one role. Every error but a failed write leaves all the
-- files as they were.
pub rule_cmd_lem :
    (w : Writes (List Rule)) (pw : Writes (List Text)) (action : RuleAction) (files : RuleFiles)
    → (rules : List Rule) → Valid rules
    → RulesAre files rules
    → Ending action files rules (rule_cmd w pw action files)
rule_cmd_lem w pw init files rules v there = init-Ending w pw files rules v there
rule_cmd_lem w pw (add a) files rules v there = add-Ending w pw files rules v there a
rule_cmd_lem w pw (remove id) files rules v there = remove-Ending w pw files rules v there id
rule_cmd_lem w pw (pause role) files rules v there = pause-Ending w pw files rules v there role
rule_cmd_lem w pw (resume role) files rules v there = resume-Ending w pw files rules v there role
