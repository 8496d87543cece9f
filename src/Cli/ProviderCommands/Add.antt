-- ===== src/Cli/ProviderCommands/Add.antt =====
-- `provider add` of rolen-cli/src/main.rs, through every branch.
use role_n.Prelude.{
  String, Bool, true, false, Option, none, some, List, [], string_eq, ◌≡◌, refl, ap, ◌∙◌,
}
use role_n.Prelude.Keyed.{UniqueKeys}
use role_n.Core.Pricing.{ProviderType}
use role_n.Core.Secrets.{Age, Environment, Reach}
use role_n.Providers.{load, Writes}
use role_n.Providers.Registry.{TunnelSpec, Provider, id_of}
use role_n.Providers.Quota.{Subscription}
use role_n.Cli.ProviderCommands.{
  Adding, Budgeting, ProviderAction, add, remove, resume, sync_quota, budget, detect, Ended, done,
  unreadable_file, not_written, bad_ptype, bad_tunnel, no_tunnel, no_tokens, not_stored,
  no_provider, no_quota, bad_date, nothing_to_do, Files, Services, parse_ptype, tunnel_of,
  or_models, is_cli, registering, discovered, stored, with_endpoint, default_endpoint, kind_of,
  authorized, importing, with_tunnel, with_ptype, subs_saved, syncing, sync_provider, sync,
  set_tokens, clear_ended, after_dates, is_some, cycling, set_dates, date_of, provider_budget,
  tokens_of, storing, provider_add, detected, detecting, provider_cmd, removing, suspending,
}
use role_n.Cli.ProviderCommands
use role_n.Cli.ProviderCommands.Kept.{Ending, Added, registering-Ending, discovered-id}

module _ {Blob : Type 0} (age : Age Blob) (env : Environment) (out : Services) (reach : Reach)
    (reg_file : Writes (List Provider)) (subs_file : Writes (List Subscription))
    (reg : List Provider) (u : UniqueKeys id_of reg) where
  abbrev Ends : Adding → Files Blob → Ended × Files Blob → Type 0
  Ends a f r = Ending (Added a.id reg) f r

  rebased :
      (E : List Provider → Type 0) (f f' : Files Blob) (r : Ended × Files Blob)
      → f'.registry ≡ f.registry
      → f'.subs ≡ f.subs
      → Ending E f' r
      → Ending E f r
  rebased E f f' (done, g) kr ks e = e
  rebased E f f' (not_written, g) kr ks e = tt
  rebased E f f' (unreadable_file, g) kr ks e = (e.0 ∙ kr, e.1 ∙ ks)
  rebased E f f' (bad_ptype, g) kr ks e = (e.0 ∙ kr, e.1 ∙ ks)
  rebased E f f' (bad_tunnel, g) kr ks e = (e.0 ∙ kr, e.1 ∙ ks)
  rebased E f f' (no_tunnel, g) kr ks e = (e.0 ∙ kr, e.1 ∙ ks)
  rebased E f f' (no_tokens, g) kr ks e = (e.0 ∙ kr, e.1 ∙ ks)
  rebased E f f' (not_stored, g) kr ks e = (e.0 ∙ kr, e.1 ∙ ks)
  rebased E f f' (no_provider, g) kr ks e = (e.0 ∙ kr, e.1 ∙ ks)
  rebased E f f' (no_quota, g) kr ks e = (e.0 ∙ kr, e.1 ∙ ks)
  rebased E f f' (bad_date, g) kr ks e = (e.0 ∙ kr, e.1 ∙ ks)
  rebased E f f' (nothing_to_do, g) kr ks e = (e.0 ∙ kr, e.1 ∙ ks)

  stored-Ending :
      (a : Adding) (p : Provider) (f : Files Blob) (r : Bool × Files Blob)
      → p.id ≡ a.id
      → load [] f.registry ≡ some reg
      → r.1.registry ≡ f.registry
      → r.1.subs ≡ f.subs
      → Ends a f (ProviderCommands.stored age env out reach reg_file subs_file a p r)
  stored-Ending a p f (false, f') same there kr ks = (kr, ks)
  stored-Ending a p f (true, f') same there kr ks =
      let p' = discovered age env out reach reg_file subs_file a.no_discover p in
      rebased (Added a.id reg) f f'
        (registering age env out reach reg_file subs_file p' (load [] f'.registry) f') kr ks
        (registering-Ending age env out reach reg_file subs_file reg u p' a.id f'
          (discovered-id age env out reach reg_file subs_file a.no_discover p ∙ same)
          (ap (load []) kr ∙ there))

  storing-same :
      (id : String) (secret : Option String) (f : Files Blob)
      → ((storing age env out reach reg_file subs_file id secret f).1.registry ≡ f.registry)
        × ((storing age env out reach reg_file subs_file id secret f).1.subs ≡ f.subs)
  storing-same id none f = (refl, refl)
  storing-same id (some s) f = (refl, refl)

  with_endpoint-Ending :
      (a : Adding) (ptype : ProviderType) (tunnel : Option TunnelSpec) (imported : Bool)
      → (endpoint : Option (Option String)) (f : Files Blob) → load [] f.registry ≡ some reg
      → Ends a f
          (with_endpoint age env out reach reg_file subs_file a ptype tunnel imported endpoint f)
  with_endpoint-Ending a ptype tunnel true none f there = (refl, refl)
  with_endpoint-Ending a ptype tunnel false none f there = (refl, refl)
  with_endpoint-Ending a ptype tunnel true (some e) f there =
      stored-Ending a _ f (true, f) refl there refl refl
  with_endpoint-Ending a ptype tunnel false (some e) f there =
      let (kr, ks) = storing-same a.id a.secret f in
      stored-Ending a _ f (storing age env out reach reg_file subs_file a.id a.secret f) refl there
        kr ks

  authorized-Ending :
      (a : Adding) (ptype : ProviderType) (tunnel : Option TunnelSpec) (imported : Bool)
      → (r : Bool × Files Blob) (f : Files Blob) → load [] f.registry ≡ some reg
      → r.1.registry ≡ f.registry
      → r.1.subs ≡ f.subs
      → Ends a f (authorized age env out reach reg_file subs_file a ptype tunnel imported r)
  authorized-Ending a ptype tunnel imported (false, f') f there kr ks = (kr, ks)
  authorized-Ending a ptype tunnel imported (true, f') f there kr ks =
      let kind = kind_of age env out reach reg_file subs_file imported in
      rebased (Added a.id reg) f f' _ kr ks (
        with_endpoint-Ending a ptype tunnel imported (default_endpoint ptype tunnel kind) f'
          (ap (load []) kr ∙ there))

  importing-Ending :
      (a : Adding) (ptype : ProviderType) (tunnel : Option TunnelSpec)
      → (tokens : Option (Option String)) (f : Files Blob) → load [] f.registry ≡ some reg
      → Ends a f (importing age env out reach reg_file subs_file a ptype tunnel tokens f)
  importing-Ending a ptype tunnel none f there = (refl, refl)
  importing-Ending a ptype tunnel (some none) f there =
      authorized-Ending a ptype tunnel false (true, f) f there refl refl
  importing-Ending a ptype tunnel (some (some t)) f there =
      authorized-Ending a ptype tunnel true
        (storing age env out reach reg_file subs_file a.id (some t) f) f there refl refl

  with_tunnel-Ending :
      (a : Adding) (ptype : ProviderType) (tunnel : Option (Option TunnelSpec)) (f : Files Blob)
      → load [] f.registry ≡ some reg
      → Ends a f (with_tunnel age env out reach reg_file subs_file a ptype tunnel f)
  with_tunnel-Ending a ptype none f there = (refl, refl)
  with_tunnel-Ending a ptype (some tunnel) f there =
      importing-Ending a ptype tunnel (tokens_of age env out reach reg_file subs_file a) f there

  with_ptype-Ending :
      (a : Adding) (ptype : Option ProviderType) (f : Files Blob)
      → load [] f.registry ≡ some reg
      → Ends a f (with_ptype age env out reach reg_file subs_file a ptype f)
  with_ptype-Ending a none f there = (refl, refl)
  with_ptype-Ending a (some ptype) f there = with_tunnel-Ending a ptype (tunnel_of a) f there

  pub add-Ending :
      (a : Adding) (f : Files Blob)
      → load [] f.registry ≡ some reg
      → Ends a f (provider_add age env out reach reg_file subs_file a f)
  unfolding provider_add
  add-Ending a f there = with_ptype-Ending a (parse_ptype a.ptype) f there
