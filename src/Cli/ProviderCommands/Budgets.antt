-- ===== src/Cli/ProviderCommands/Budgets.antt =====
-- `provider sync-quota` and `provider budget` of rolen-cli/src/main.rs, which leave the registry.
use role_n.Prelude.{
  ℕ, String, Bool, true, false, ◌||◌, Option, none, some, List, [], string_eq, ◌≡◌, refl, arith, ap,
  ◌⊎◌, Bool-cases, inl, inr,
}
use role_n.Prelude.Keyed.{UniqueKeys}
use role_n.Core.Secrets.{Age, Environment, Reach}
use role_n.Providers.{Disk, load, Writes}
use role_n.Providers.Registry.{Provider, id_of, get_provider}
use role_n.Providers.Quota.{
  QuotaSource, Subscription, record_synced, clear_budget, set_manual_budget, set_cycle,
}
use role_n.Cli.ProviderCommands.{
  Budgeting, Files, Services, is_cli, subs_saved, syncing, sync_provider, sync, set_tokens,
  clear_ended, after_dates, is_some, cycling, date_of, provider_budget,
}
use role_n.Cli.ProviderCommands.Kept.{Ending}

module _ {Blob : Type 0} (age : Age Blob) (env : Environment) (out : Services) (reach : Reach)
    (reg_file : Writes (List Provider)) (subs_file : Writes (List Subscription))
    (reg : List Provider) (u : UniqueKeys id_of reg) where
  reg_saved-same :
      (f : Files Blob) (r : Bool × Disk (List Subscription))
      → load [] f.registry ≡ some reg
      → Ending (λ reg'. reg' ≡ reg) f (subs_saved age env out reach reg_file subs_file f r)
  reg_saved-same f (true, disk) there = (reg, there, u, refl)
  reg_saved-same f (false, disk) there = tt

  synced-Ending :
      (id : String) (source : QuotaSource) (quota : Option (ℕ × Option ℕ)) (f : Files Blob)
      → load [] f.registry ≡ some reg
      → Ending
          (λ reg'. reg' ≡ reg)
          f
          (syncing age env out reach reg_file subs_file id source quota f)
  synced-Ending id source none f there = (refl, refl)
  synced-Ending id source (some (used, limit)) f there =
      reg_saved-same f (record_synced subs_file id used limit source f.subs) there

  sync_provider-Ending :
      (id : String) (p : Option Provider) (f : Files Blob)
      → load [] f.registry ≡ some reg
      → Ending (λ reg'. reg' ≡ reg) f (sync_provider age env out reach reg_file subs_file id p f)
  sync_provider-Ending id none f there = (refl, refl)
  sync_provider-Ending id (some p) f there = elim (Bool-cases (is_cli p.ptype)) [
    | inl e ↦ rw e (synced-Ending id QuotaSource.parsed (out.cli_quota p) f there)
    | inr e ↦ rw e (synced-Ending id QuotaSource.api_source (out.fetch_quota p) f there)
  ]

  pub sync-Ending :
      (id : String) (f : Files Blob)
      → load [] f.registry ≡ some reg
      → Ending
          (λ reg'. reg' ≡ reg)
          f
          (sync age env out reach reg_file subs_file id (load [] f.registry) f)
  sync-Ending id f there = rw there (sync_provider-Ending id (get_provider id reg) f there)

  -- A budget is set or cleared after dates have been, or alone: the base for the errors is the same.
  set_tokens-Ending :
      (b : Budgeting) (clear : Bool) (tokens : Option ℕ) (base f : Files Blob)
      → load [] f.registry ≡ some reg
      → (f ≡ base) ⊎ ((is_some b.cycle_start || is_some b.renewal) ≡ true)
      → Ending
          (λ reg'. reg' ≡ reg)
          base
          (set_tokens age env out reach reg_file subs_file b clear tokens f)
  set_tokens-Ending b true tokens base f there why =
      cleared-Ending (clear_budget subs_file b.id f.subs)
    where
      cleared-Ending :
          (r : Option Bool × Disk (List Subscription))
          → Ending (λ reg'. reg' ≡ reg) base (clear_ended age env out reach reg_file subs_file f r)
      cleared-Ending (none, disk) = tt
      cleared-Ending (some removed, disk) = (reg, there, u, refl)
  set_tokens-Ending b false (some t) base f there why =
      saved-Ending (set_manual_budget subs_file b.id t f.subs)
    where
      saved-Ending :
          (r : Bool × Disk (List Subscription))
          → Ending (λ reg'. reg' ≡ reg) base (subs_saved age env out reach reg_file subs_file f r)
      saved-Ending (true, disk) = (reg, there, u, refl)
      saved-Ending (false, disk) = tt
  set_tokens-Ending b false none base f there why =
      elim (Bool-cases (is_some b.cycle_start || is_some b.renewal)) [
        | inl e ↦ rw e (reg, there, u, refl)
        | inr e ↦ elim why [
          | inl same ↦ rw e (ap (λ g. g.registry) same, ap (λ g. g.subs) same)
          | inr dated ↦ absurd (ground (arith, e, dated))
        ]
      ]

  after_saved-Ending :
      (b : Budgeting) (f : Files Blob) (r : Bool × Disk (List Subscription))
      → load [] f.registry ≡ some reg
      → (is_some b.cycle_start || is_some b.renewal) ≡ true
      → Ending
          (λ reg'. reg' ≡ reg)
          f
          (after_dates age env out reach reg_file subs_file b
            (subs_saved age env out reach reg_file subs_file f r))
  after_saved-Ending b f (true, disk) there dated =
      set_tokens-Ending b b.clear b.tokens f (record f { subs = disk }) there (inr dated)
  after_saved-Ending b f (false, disk) there dated = tt

  cycling-Ending :
      (b : Budgeting) (c r : Option (Option ℕ)) (f : Files Blob)
      → load [] f.registry ≡ some reg
      → (is_some b.cycle_start || is_some b.renewal) ≡ true
      → Ending
          (λ reg'. reg' ≡ reg)
          f
          (after_dates age env out reach reg_file subs_file b
            (cycling age env out reach reg_file subs_file b.id c r f))
  cycling-Ending b none r f there dated = (refl, refl)
  cycling-Ending b (some c) none f there dated = (refl, refl)
  cycling-Ending b (some c) (some r) f there dated =
      after_saved-Ending b f (set_cycle subs_file b.id c r f.subs) there dated

  pub budget-Ending :
      (b : Budgeting) (f : Files Blob)
      → load [] f.registry ≡ some reg
      → Ending (λ reg'. reg' ≡ reg) f (provider_budget age env out reach reg_file subs_file b f)
  unfolding provider_budget
  budget-Ending b f there = elim (Bool-cases (is_some b.cycle_start || is_some b.renewal)) [
    | inl e ↦ rw e (
        cycling-Ending b (date_of out.parse_date b.cycle_start) (date_of out.parse_date b.renewal) f
          there e)
    | inr e ↦ rw e (set_tokens-Ending b b.clear b.tokens f f there (inl refl))
  ]
