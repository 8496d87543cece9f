-- ===== src/Cli/ProviderCommands/Kept.antt =====
-- What `provider_cmd` of rolen-cli/src/main.rs does to the registry, command by command.
use role_n.Prelude.{
  String, Bool, true, false, ◌&&◌, none, some, List, [], ◌∷◌, if◌then◌else◌, ◌==◌, string_eq, ◌≡◌,
  refl, arith, ap, sym, ◌∙◌, Bool-cases, Option-cases, inl, inr,
}
use role_n.Prelude.Keyed.{UniqueKeys, is_found, has_key}
use role_n.Core.Secrets.{Age, Environment, Reach}
use role_n.Providers.{load, Writes}
use role_n.Providers.Registry.{
  Provider, id_of, get_provider, upsert, suspend, registry_lem, get_provider-upsert,
}
use role_n.Providers.Quota.{Subscription}
use role_n.Cli.ProviderCommands.{
  Adding, Budgeting, ProviderAction, add, remove, resume, sync_quota, budget, detect, Ended, done,
  unreadable_file, not_written, bad_ptype, bad_tunnel, no_tunnel, no_tokens, not_stored,
  no_provider, no_quota, bad_date, nothing_to_do, Files, Services, parse_ptype, tunnel_of,
  or_models, is_cli, registering, discovered, stored, with_endpoint, default_endpoint, kind_of,
  authorized, importing, tokens_of, storing, provider_add, detected, detecting, provider_cmd,
  removing, suspending,
}
use role_n.Cli.ProviderCommands

-- The registry after a command that reports success, of which `E` holds; other errors than a failed
-- write leave the registry and the budgets.
abbrev pub Ending :
    {Blob : Type 0} → (List Provider → Type 0) → Files Blob → Ended × Files Blob → Type 0
Ending E f (done, f') =
    (reg' : List Provider) × (load [] f'.registry ≡ some reg') × UniqueKeys id_of reg' × E reg'
Ending E f (not_written, f') = Unit
Ending E f (unreadable_file, f') = (f'.registry ≡ f.registry) × (f'.subs ≡ f.subs)
Ending E f (bad_ptype, f') = (f'.registry ≡ f.registry) × (f'.subs ≡ f.subs)
Ending E f (bad_tunnel, f') = (f'.registry ≡ f.registry) × (f'.subs ≡ f.subs)
Ending E f (no_tunnel, f') = (f'.registry ≡ f.registry) × (f'.subs ≡ f.subs)
Ending E f (no_tokens, f') = (f'.registry ≡ f.registry) × (f'.subs ≡ f.subs)
Ending E f (not_stored, f') = (f'.registry ≡ f.registry) × (f'.subs ≡ f.subs)
Ending E f (no_provider, f') = (f'.registry ≡ f.registry) × (f'.subs ≡ f.subs)
Ending E f (no_quota, f') = (f'.registry ≡ f.registry) × (f'.subs ≡ f.subs)
Ending E f (bad_date, f') = (f'.registry ≡ f.registry) × (f'.subs ≡ f.subs)
Ending E f (nothing_to_do, f') = (f'.registry ≡ f.registry) × (f'.subs ≡ f.subs)

-- The provider of the id is there, has that id, and the other ids have the providers that they had.
abbrev pub Added : String → List Provider → List Provider → Type 0
Added id reg reg' =
    (p : Provider) × (p.id ≡ id)
    × ((j : String) → get_provider j reg' ≡ (if id == j then some p else get_provider j reg))

abbrev pub Suspended : String → Bool → List Provider → List Provider → Type 0
Suspended id b reg reg' =
    (is_found id_of (get_provider id reg) ≡ true)
    × ((j : String)
        → get_provider j reg'
          ≡ (if id == j then suspend b (get_provider j reg) else get_provider j reg))

module _ {Blob : Type 0} (age : Age Blob) (env : Environment) (out : Services) (reach : Reach)
    (reg_file : Writes (List Provider)) (subs_file : Writes (List Subscription)) where
  -- A provider that is detected is registered as it is found, whatever it was before.
  abbrev pub Detected : Bool → List Provider → List Provider → Type 0
  Detected register reg reg' =
      let found = out.detect_all in
      (j : String)
      → get_provider j reg' ≡ (
          if register && has_key id_of j found
          then get_provider j (detected age env out reach reg_file subs_file found [])
          else get_provider j reg)

  abbrev pub Effect : ProviderAction → List Provider → List Provider → Type 0
  Effect (add a) reg reg' = Added a.id reg reg'
  Effect (remove id) reg reg' =
      (is_found id_of (get_provider id reg) ≡ true)
      × ((j : String) → get_provider j reg' ≡ (if id == j then none else get_provider j reg))
  Effect (ProviderCommands.suspend id) reg reg' = Suspended id true reg reg'
  Effect (resume id) reg reg' = Suspended id false reg reg'
  Effect (sync_quota id) reg reg' = reg' ≡ reg
  Effect (budget b) reg reg' = reg' ≡ reg
  Effect (detect register) reg reg' = Detected register reg reg'

module _ {Blob : Type 0} (age : Age Blob) (env : Environment) (out : Services) (reach : Reach)
    (reg_file : Writes (List Provider)) (subs_file : Writes (List Subscription)) where
  pub discovered-id :
      (b : Bool) (p : Provider) → (discovered age env out reach reg_file subs_file b p).id ≡ p.id
  unfolding discovered
  discovered-id b p = elim (Option-cases (out.list_models p)) [
    | inl e ↦ rw e (ground arith)
    | inr (m, e) ↦ rw e (ground arith)
  ]

  pub get_provider-detected :
      (found r : List Provider) (j : String)
      → has_key id_of j found ≡ false
      → get_provider j (detected age env out reach reg_file subs_file found r) ≡ get_provider j r
  unfolding detected
  get_provider-detected [] r j h = refl
  get_provider-detected (p ∷ found) r j h =
      let p' = discovered age env out reach reg_file subs_file false p in
      get_provider-detected found (upsert p' r) j (ground (arith, h))
      ∙ get_provider-upsert p' r j
      ∙ ground (arith, h, discovered-id false p)

  pub detected-fresh :
      (found r s : List Provider) (j : String)
      → has_key id_of j found ≡ true
      → get_provider j (detected age env out reach reg_file subs_file found r)
        ≡ get_provider j (detected age env out reach reg_file subs_file found s)
  unfolding detected
  detected-fresh [] r s j h = absurd (ground (arith, h))
  detected-fresh (p ∷ found) r s j h =
      let p' = discovered age env out reach reg_file subs_file false p in
      elim (Bool-cases (has_key id_of j found)) [
        | inl e ↦ detected-fresh found (upsert p' r) (upsert p' s) j e
        | inr e ↦
            let here : (p'.id == j) ≡ true = ground (arith, h, e, discovered-id false p) in
            get_provider-detected found (upsert p' r) j e
            ∙ get_provider-upsert p' r j
            ∙ ground (arith, here)
            ∙ sym (get_provider-detected found (upsert p' s) j e ∙ get_provider-upsert p' s j)
      ]

  pub detected-UniqueKeys :
      (found r : List Provider)
      → UniqueKeys id_of r
      → UniqueKeys id_of (detected age env out reach reg_file subs_file found r)
  unfolding detected
  detected-UniqueKeys [] r u = u
  detected-UniqueKeys (p ∷ found) r u =
      let p' = discovered age env out reach reg_file subs_file false p in
      detected-UniqueKeys found (upsert p' r) (registry_lem p' p.id true r p.id u).5

  pub registering-Ending :
      (reg : List Provider) (u : UniqueKeys id_of reg) (p : Provider) (id : String) (f : Files Blob)
      → p.id ≡ id
      → load [] f.registry ≡ some reg
      → Ending
          (Added id reg)
          f
          (registering age env out reach reg_file subs_file p (load [] f.registry) f)
  unfolding registering
  registering-Ending reg u p id f same there =
      let new = upsert p reg in
      elim (Bool-cases (reg_file.write_ok new)) [
        | inl o ↦
            rw (there, o)
              (
                new,
                refl,
                (registry_lem p id true reg id u).5,
                (
                  p,
                  same,
                  λ j.
                      (registry_lem p id true reg j u).0
                      ∙ ap (λ i. if i == j then some p else get_provider j reg) same,
                ),
              )
        | inr o ↦ rw (there, o) tt
      ]
