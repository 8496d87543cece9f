-- ===== src/Cli/ProviderCommands/Tests.antt =====
-- The commands on the providers, on concrete files.
use role_n.Prelude.{String, true, none, some, [], ◌∷◌, ◌≡◌, refl}
use role_n.Core.Pricing.{api}
use role_n.Core.Secrets.{Age, Environment, Reach, Secrets}
use role_n.Providers.{missing, holds, Writes}
use role_n.Providers.Registry.{Provider, key}
use role_n.Cli.ProviderCommands.{Adding, Files, Services}
use role_n.Cli.ProviderCommands.Tunnel.{bad_spec, spec, tunnel_parse}

abbrev kimi : Provider
kimi = record {
  id = "kimi";
  ptype = api;
  auth = key;
  tunnel = none;
  endpoint = none;
  cli_path = none;
  key_ref = none;
  models = [];
  suspended = true;
  quota_url = none;
  quota_json_path = none;
}

abbrev age : Age (String × Secrets)
age = record { encrypt = λ pw m. (pw, m); decrypt = λ _ b. some b.1 }

abbrev environment : Environment
environment = record { var = λ _. none; vault_password = none; secrets_backend = none }

abbrev services : Services
services = record {
  list_models = λ _. none;
  cli_quota = λ _. none;
  fetch_quota = λ _. none;
  detect_all = [];
  import_tokens = λ _. none;
  parse_date = λ _. none;
}

abbrev reach : Reach
reach = record {
  keychain_set = true;
  keychain_get = true;
  keychain_delete = true;
  vault_save = true;
}

abbrev written : {A : Type 0} → Writes A
written = record { write_ok = λ _. true; torn = λ _ old. old }

abbrev files : Files (String × Secrets)
files = record {
  registry = holds (kimi ∷ []);
  subs = missing;
  secrets = record { keychain = []; vault = none };
}

abbrev adding : Adding
adding = record {
  id = "kimi";
  ptype = "api";
  endpoint = none;
  cli_path = none;
  secret = some "sk-1";
  oauth_import = none;
  tunnel = none;
  tunnel_local_port = none;
  tunnel_remote_port = none;
  identity = none;
  no_discover = true;
}

tunnel_parse-port :
    tunnel_parse "me@host:2222"
    ≡ spec (record {
      user = "me";
      host = "host";
      port = 2222;
      remote_host = "localhost";
      remote_port = 11434;
      local_port = 11435;
      identity_file = none;
    })
unfolding tunnel_parse
tunnel_parse-port = refl

tunnel_parse-large : tunnel_parse "me@host:65536" ≡ bad_spec
unfolding tunnel_parse
tunnel_parse-large = refl
