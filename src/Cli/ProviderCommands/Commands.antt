-- ===== src/Cli/ProviderCommands/Commands.antt =====
-- What the commands of `provider_cmd` of rolen-cli/src/main.rs leave, each by its branches.
use role_n.Prelude.{
  String, Bool, true, false, ◌&&◌, none, some, List, [], ◌∷◌, if◌then◌else◌, ◌==◌, string_eq, ◌≡◌,
  refl, arith, sym, ◌∙◌, Bool-cases, inl, inr,
}
use role_n.Prelude.Keyed.{UniqueKeys, is_found, has_key}
use role_n.Core.Pricing.{ProviderType}
use role_n.Core.Secrets.{Age, Environment, Reach}
use role_n.Providers.{load, Writes}
use role_n.Providers.Registry.{
  AuthKind, Provider, id_of, get_provider, remove_provider, set_suspended, registry_lem,
}
use role_n.Providers.Quota.{Subscription}
use role_n.Cli.ProviderCommands.{
  Adding, Budgeting, Ended, done, unreadable_file, not_written, bad_ptype, bad_tunnel, no_tunnel,
  no_tokens, not_stored, no_provider, no_quota, bad_date, nothing_to_do, Files, Services,
  parse_ptype, tunnel_of, or_models, is_cli, registering, discovered, stored, with_endpoint,
  default_endpoint, kind_of, authorized, importing, with_tunnel, with_ptype, subs_saved, syncing,
  sync_provider, sync, set_tokens, clear_ended, after_dates, is_some, cycling, set_dates, date_of,
  provider_budget, tokens_of, storing, provider_add, detected, detecting, removing, suspending,
}
use role_n.Cli.ProviderCommands
use role_n.Cli.ProviderCommands.Kept.{
  Ending, Suspended, get_provider-detected, detected-fresh, detected-UniqueKeys,
}

-- Any provider.
abbrev probe : String → Provider
probe id = record {
  id = id;
  ptype = ProviderType.cli;
  auth = AuthKind.key;
  tunnel = none;
  endpoint = none;
  cli_path = none;
  key_ref = none;
  models = [];
  suspended = false;
  quota_url = none;
  quota_json_path = none;
}

module _ {Blob : Type 0} (age : Age Blob) (env : Environment) (out : Services) (reach : Reach)
    (reg_file : Writes (List Provider)) (subs_file : Writes (List Subscription))
    (reg : List Provider) (u : UniqueKeys id_of reg) where
  pub suspending-Ending :
      (id : String) (b : Bool) (f : Files Blob)
      → load [] f.registry ≡ some reg
      → Ending
          (Suspended id b reg)
          f
          (suspending age env out reach reg_file subs_file id b (load [] f.registry) f)
  suspending-Ending id b f there =
      let all_laws = λ (j : String). registry_lem (probe id) id b reg j u in
      elim (Bool-cases (set_suspended id b reg).0) [
        | inl e ↦ elim (Bool-cases (reg_file.write_ok (set_suspended id b reg).1)) [
          | inl o ↦
              rw (there, e, o)
                (
                  (set_suspended id b reg).1,
                  refl,
                  (all_laws id).7,
                  (sym (all_laws id).4 ∙ e, λ j. (all_laws j).2),
                )
          | inr o ↦ rw (there, e, o) tt
        ]
        | inr e ↦ rw (there, e) (refl, refl)
      ]

  pub remove-Ending :
      (id : String) (f : Files Blob)
      → load [] f.registry ≡ some reg
      → Ending
          (λ reg'.
            (is_found id_of (get_provider id reg) ≡ true)
            × ((j : String) → get_provider j reg' ≡ (if id == j then none else get_provider j reg)))
          f
          (removing age env out reach reg_file subs_file id (load [] f.registry) f)
  remove-Ending id f there =
      let all_laws = λ (j : String). registry_lem (probe id) id true reg j u in
      elim (Bool-cases (remove_provider id reg).0) [
        | inl e ↦ elim (Bool-cases (reg_file.write_ok (remove_provider id reg).1)) [
          | inl o ↦
              rw (there, e, o)
                (
                  (remove_provider id reg).1,
                  refl,
                  (all_laws id).6,
                  (sym (all_laws id).3 ∙ e, λ j. (all_laws j).1),
                )
          | inr o ↦ rw (there, e, o) tt
        ]
        | inr e ↦ rw (there, e) (refl, refl)
      ]

  pub detect-Ending :
      (register : Bool) (found : List Provider) (f : Files Blob)
      → load [] f.registry ≡ some reg
      → Ending
          (λ reg'.
            (j : String)
            → get_provider j reg' ≡ (
                if register && has_key id_of j found
                then get_provider j (detected age env out reach reg_file subs_file found [])
                else get_provider j reg))
          f
          (detecting age env out reach reg_file subs_file register found (load [] f.registry) f)
  detect-Ending register [] f there = (reg, there, u, λ j. ground arith)
  detect-Ending false (p ∷ found) f there = rw there (reg, there, u, λ j. refl)
  detect-Ending true (p ∷ found) f there =
      let reg' = detected age env out reach reg_file subs_file (p ∷ found) reg in
      elim (Bool-cases (reg_file.write_ok reg')) [
        | inl o ↦
            rw (there, o)
              (
                reg',
                refl,
                detected-UniqueKeys age env out reach reg_file subs_file (p ∷ found) reg u,
                λ j. elim (Bool-cases (has_key id_of j (p ∷ found))) [
                  | inl e ↦
                      rw e
                        (detected-fresh age env out reach reg_file subs_file (p ∷ found) reg [] j e)
                  | inr e ↦ rw e (
                      get_provider-detected age env out reach reg_file subs_file (p ∷ found) reg j
                        e)
                ],
              )
        | inr o ↦ rw (there, o) tt
      ]
