-- ===== src/Cli/ProviderCommands.antt =====
-- `provider_cmd` of rolen-cli/src/main.rs: the commands on the providers that change files. The listing,
-- the test and the health check only print. What a provider lists or reports, the import of OAuth
-- tokens and the reading of dates are parameters.
pub mod Tunnel
pub mod Kept
pub mod Add
pub mod Budgets
pub mod Commands
mod Tests
use role_n.Prelude.{
  ℕ, String, Bool, true, false, not, ◌&&◌, ◌||◌, Option, none, some, List, [], ◌∷◌, if◌then◌else◌,
  ◌==◌, string_eq,
}
use role_n.Core.Pricing.{ProviderType, api, cli, ollama_local, ollama_cloud, ollama_remote}
use role_n.Core.Secrets.{Age, Environment, Reach, Stores, set_secret, delete_secret}
use role_n.Providers.{Disk, load, Writes, save}
use role_n.Providers.Registry.{
  AuthKind, key, oauth, TunnelSpec, Model, Provider, get_provider, upsert, remove_provider,
  set_suspended,
}
use role_n.Providers.Quota.{
  QuotaSource, api_source, parsed, Subscription, set_manual_budget, set_cycle, record_synced,
  clear_budget,
}
use role_n.Cli.ProviderCommands.Tunnel.{Parsed, bad_spec, spec, tunnel_parse}

abbrev pub is_some : {A : Type 0} → Option A → Bool
is_some none = false
is_some (some _) = true

abbrev pub or : {A : Type 0} → Option A → Option A → Option A
or none b = b
or (some a) b = some a

pub parse_ptype : String → Option ProviderType
parse_ptype s =
    if s == "api"
    then some api
    else (if s == "cli"
        then some cli
        else (if s == "ollama-local"
            then some ollama_local
            else (if s == "ollama-cloud"
                then some ollama_cloud
                else (if s == "ollama-remote" then some ollama_remote else none))))

abbrev pub is_cli : ProviderType → Bool
is_cli cli = true
is_cli api = false
is_cli ollama_local = false
is_cli ollama_cloud = false
is_cli ollama_remote = false

append_text : String → String → String
append_text String.[] b = b
append_text (String.◌∷◌ c a) b = String.◌∷◌ c (append_text a b)

unfoldable pub key_ref_for : String → String
unfolding append_text
key_ref_for id = append_text "provider-" id

pub record Adding : Type 0 where
  pub id : String
  pub ptype : String
  pub endpoint : Option String
  pub cli_path : Option String
  pub secret : Option String
  pub oauth_import : Option String
  pub tunnel : Option String
  pub tunnel_local_port : Option ℕ
  pub tunnel_remote_port : Option ℕ
  pub identity : Option String
  pub no_discover : Bool

pub record Budgeting : Type 0 where
  pub id : String
  pub tokens : Option ℕ
  pub clear : Bool
  pub cycle_start : Option String
  pub renewal : Option String

pub data ProviderAction : Type 0 where
  add : Adding → ProviderAction
  remove suspend resume sync_quota : String → ProviderAction
  budget : Budgeting → ProviderAction
  detect : Bool → ProviderAction

pub data Ended : Type 0 where
  done unreadable_file not_written : Ended
  bad_ptype bad_tunnel no_tunnel no_tokens not_stored : Ended
  no_provider no_quota bad_date nothing_to_do : Ended

pub record Files (Blob : Type 0) : Type 0 where
  pub registry : Disk (List Provider)
  pub subs : Disk (List Subscription)
  pub secrets : Stores Blob

-- Code outside: what a provider lists and reports, the detection, the tokens of a file, dates.
pub record Services : Type 0 where
  pub list_models : Provider → Option (List Model)
  pub cli_quota : Provider → Option (ℕ × Option ℕ)
  pub fetch_quota : Provider → Option (ℕ × Option ℕ)
  pub detect_all : List Provider
  pub import_tokens : String → Option String
  pub parse_date : String → Option ℕ

abbrev pub or_port : Option ℕ → ℕ → ℕ
or_port none p = p
or_port (some q) p = q

abbrev pub with_ports : Adding → Parsed → Parsed
with_ports a bad_spec = bad_spec
with_ports a (spec t) = spec (record t {
  local_port = or_port a.tunnel_local_port t.local_port;
  remote_port = or_port a.tunnel_remote_port t.remote_port;
  identity_file = a.identity;
})

abbrev pub tunnel_of : Adding → Option (Option TunnelSpec)
tunnel_of a = elim a.tunnel [
  | none ↦ some none
  | some s ↦ elim (with_ports a (tunnel_parse s)) [ bad_spec ↦ none | spec t ↦ some (some t) ]
]

-- The default endpoint, or the error that there is no tunnel; it is asked for with an endpoint too.
unfoldable pub default_endpoint :
    ProviderType → Option TunnelSpec → AuthKind → Option (Option String)
default_endpoint ollama_local none _ = some (some "http://localhost:11434")
default_endpoint ollama_local (some _) _ = some none
default_endpoint ollama_cloud tunnel _ = some (some "https://ollama.com")
default_endpoint ollama_remote none _ = none
default_endpoint ollama_remote (some _) _ = some none
default_endpoint api tunnel oauth = some (some "https://api.anthropic.com")
default_endpoint api tunnel key = some none
default_endpoint cli tunnel _ = some none

abbrev pub new_provider :
    Adding → ProviderType → AuthKind → Option TunnelSpec → Option String → Option String → Provider
new_provider a ptype auth tunnel endpoint key_ref = record {
  id = a.id;
  ptype = ptype;
  auth = auth;
  tunnel = tunnel;
  endpoint = endpoint;
  cli_path = a.cli_path;
  key_ref = key_ref;
  models = [];
  suspended = false;
  quota_url = none;
  quota_json_path = none;
}

abbrev pub or_models : Option (List Model) → Provider → Provider
or_models none p = p
or_models (some models) p = record p { models = models }

-- `transpose()?`
abbrev pub date_of : (String → Option ℕ) → Option String → Option (Option ℕ)
date_of parse none = some none
date_of parse (some s) = elim (parse s) [ none ↦ none | some t ↦ some (some t) ]

module _ {Blob : Type 0} (age : Age Blob) (env : Environment) (out : Services) (reach : Reach)
    (reg_file : Writes (List Provider)) (subs_file : Writes (List Subscription)) where
  abbrev pub ended : Bool → Ended
  ended true = done
  ended false = not_written

  abbrev pub reg_saved : Files Blob → Bool × Disk (List Provider) → Ended × Files Blob
  reg_saved f (ok, disk) = (ended ok, record f { registry = disk })

  abbrev pub subs_saved : Files Blob → Bool × Disk (List Subscription) → Ended × Files Blob
  subs_saved f (ok, disk) = (ended ok, record f { subs = disk })

  -- A secret under the reference of the provider, if there is one.
  abbrev pub storing : String → Option String → Files Blob → Bool × Files Blob
  storing id none f = (true, f)
  storing id (some secret) f =
      let (ok, s) = set_secret age env reach (key_ref_for id) secret f.secrets in
      (ok, record f { secrets = s })

  abbrev pub key_ref_if : String → Option String → Option String
  key_ref_if id none = none
  key_ref_if id (some _) = some (key_ref_for id)

  unfoldable pub registering : Provider → Option (List Provider) → Files Blob → Ended × Files Blob
  unfolding upsert
  registering p none f = (unreadable_file, f)
  registering p (some reg) f = reg_saved f (save reg_file (upsert p reg) f.registry)

  unfoldable pub discovered : Bool → Provider → Provider
  discovered no_discover p =
      if not no_discover && not (is_cli p.ptype) then or_models (out.list_models p) p else p

  abbrev pub stored : Adding → Provider → Bool × Files Blob → Ended × Files Blob
  stored a p (false, f) = (not_stored, f)
  stored a p (true, f) = registering (discovered a.no_discover p) (load [] f.registry) f

  -- With OAuth tokens, which are stored by now, a key is left aside.
  abbrev pub with_endpoint :
      Adding
      → ProviderType
      → Option TunnelSpec
      → Bool
      → Option (Option String)
      → Files Blob
      → Ended × Files Blob
  with_endpoint a ptype tunnel _ none f = (no_tunnel, f)
  with_endpoint a ptype tunnel true (some e) f =
      stored a (new_provider a ptype oauth tunnel (or a.endpoint e) (some (key_ref_for a.id)))
        (true, f)
  with_endpoint a ptype tunnel false (some e) f =
      stored a (new_provider a ptype key tunnel (or a.endpoint e) (key_ref_if a.id a.secret))
        (storing a.id a.secret f)

  abbrev pub kind_of : Bool → AuthKind
  kind_of true = oauth
  kind_of false = key

  abbrev pub authorized :
      Adding → ProviderType → Option TunnelSpec → Bool → Bool × Files Blob → Ended × Files Blob
  authorized a ptype tunnel imported (false, f) = (not_stored, f)
  authorized a ptype tunnel imported (true, f) =
      with_endpoint a ptype tunnel imported (default_endpoint ptype tunnel (kind_of imported)) f

  abbrev pub importing :
      Adding
      → ProviderType
      → Option TunnelSpec
      → Option (Option String)
      → Files Blob
      → Ended × Files Blob
  importing a ptype tunnel none f = (no_tokens, f)
  importing a ptype tunnel (some none) f = authorized a ptype tunnel false (true, f)
  importing a ptype tunnel (some (some tokens)) f =
      authorized a ptype tunnel true (storing a.id (some tokens) f)

  abbrev pub tokens_of : Adding → Option (Option String)
  tokens_of a = elim a.oauth_import [
    | none ↦ some none
    | some path ↦ elim (out.import_tokens path) [ none ↦ none | some t ↦ some (some t) ]
  ]

  abbrev pub with_tunnel :
      Adding → ProviderType → Option (Option TunnelSpec) → Files Blob → Ended × Files Blob
  with_tunnel a ptype none f = (bad_tunnel, f)
  with_tunnel a ptype (some tunnel) f = importing a ptype tunnel (tokens_of a) f

  abbrev pub with_ptype : Adding → Option ProviderType → Files Blob → Ended × Files Blob
  with_ptype a none f = (bad_ptype, f)
  with_ptype a (some ptype) f = with_tunnel a ptype (tunnel_of a) f

  unfoldable pub provider_add : Adding → Files Blob → Ended × Files Blob
  unfolding parse_ptype tunnel_parse default_endpoint registering discovered set_secret key_ref_for
  provider_add a f = with_ptype a (parse_ptype a.ptype) f

  abbrev pub removing : String → Option (List Provider) → Files Blob → Ended × Files Blob
  removing id none f = (unreadable_file, f)
  removing id (some reg) f =
      let (found, left) = remove_provider id reg in
      if found
      then (let (ok, disk) = save reg_file left f.registry in
          if ok
          then (
            done,
            record f {
              registry = disk;
              secrets = delete_secret age env reach (key_ref_for id) f.secrets;
            },
          )
          else (not_written, record f { registry = disk }))
      else (no_provider, f)

  abbrev pub suspending : String → Bool → Option (List Provider) → Files Blob → Ended × Files Blob
  suspending id b none f = (unreadable_file, f)
  suspending id b (some reg) f =
      let (found, reg') = set_suspended id b reg in
      if found then reg_saved f (save reg_file reg' f.registry) else (no_provider, f)

  abbrev pub syncing :
      String → QuotaSource → Option (ℕ × Option ℕ) → Files Blob → Ended × Files Blob
  syncing id source none f = (no_quota, f)
  syncing id source (some (used, limit)) f =
      subs_saved f (record_synced subs_file id used limit source f.subs)

  abbrev pub sync_provider : String → Option Provider → Files Blob → Ended × Files Blob
  sync_provider id none f = (no_provider, f)
  sync_provider id (some p) f =
      if is_cli p.ptype
      then syncing id parsed (out.cli_quota p) f
      else syncing id api_source (out.fetch_quota p) f

  abbrev pub sync : String → Option (List Provider) → Files Blob → Ended × Files Blob
  sync id none f = (unreadable_file, f)
  sync id (some reg) f = sync_provider id (get_provider id reg) f

  -- The loop over what is found.
  unfoldable pub detected : List Provider → List Provider → List Provider
  unfolding upsert discovered
  detected [] reg = reg
  detected (p ∷ found) reg = detected found (upsert (discovered false p) reg)

  abbrev pub detecting :
      Bool → List Provider → Option (List Provider) → Files Blob → Ended × Files Blob
  detecting register [] reg f = (done, f)
  detecting register (p ∷ found) none f = (unreadable_file, f)
  detecting false (p ∷ found) (some reg) f = (done, f)
  detecting true (p ∷ found) (some reg) f =
      reg_saved f (save reg_file (detected (p ∷ found) reg) f.registry)

  abbrev pub cycling :
      String → Option (Option ℕ) → Option (Option ℕ) → Files Blob → Ended × Files Blob
  cycling id none r f = (bad_date, f)
  cycling id (some c) none f = (bad_date, f)
  cycling id (some c) (some r) f = subs_saved f (set_cycle subs_file id c r f.subs)

  abbrev pub set_dates : Budgeting → Files Blob → Ended × Files Blob
  set_dates b f =
      if is_some b.cycle_start || is_some b.renewal
      then cycling b.id (date_of out.parse_date b.cycle_start) (date_of out.parse_date b.renewal) f
      else (done, f)

  abbrev pub clear_ended : Files Blob → Option Bool × Disk (List Subscription) → Ended × Files Blob
  clear_ended f (none, disk) = (not_written, record f { subs = disk })
  clear_ended f (some _, disk) = (done, record f { subs = disk })

  abbrev pub set_tokens : Budgeting → Bool → Option ℕ → Files Blob → Ended × Files Blob
  set_tokens b true tokens f = clear_ended f (clear_budget subs_file b.id f.subs)
  set_tokens b false (some t) f = subs_saved f (set_manual_budget subs_file b.id t f.subs)
  set_tokens b false none f =
      if is_some b.cycle_start || is_some b.renewal then (done, f) else (nothing_to_do, f)

  abbrev pub after_dates : Budgeting → Ended × Files Blob → Ended × Files Blob
  after_dates b (done, f) = set_tokens b b.clear b.tokens f
  after_dates b (not_written, f) = (not_written, f)
  after_dates b (bad_date, f) = (bad_date, f)
  after_dates b (_, f) = (not_written, f)

  unfoldable pub provider_budget : Budgeting → Files Blob → Ended × Files Blob
  unfolding set_cycle clear_budget set_manual_budget
  provider_budget b f = after_dates b (set_dates b f)

  unfoldable pub provider_cmd : ProviderAction → Files Blob → Ended × Files Blob
  unfolding provider_add provider_budget detected remove_provider delete_secret set_suspended
      get_provider record_synced key_ref_for
  provider_cmd (add a) f = provider_add a f
  provider_cmd (remove id) f = removing id (load [] f.registry) f
  provider_cmd (suspend id) f = suspending id true (load [] f.registry) f
  provider_cmd (resume id) f = suspending id false (load [] f.registry) f
  provider_cmd (sync_quota id) f = sync id (load [] f.registry) f
  provider_cmd (budget b) f = provider_budget b f
  provider_cmd (detect register) f = detecting register out.detect_all (load [] f.registry) f
