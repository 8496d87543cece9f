-- ===== src/Cli/RuleCommands/Tests.antt =====
-- The commands on the rules, on concrete files.
use role_n.Prelude.{◌+◌, ◌^◌, true, false, none, some, List, [], ◌∷◌, nat_eq, list_eq, ◌≡◌, refl}
use role_n.Core.Pricing.{api}
use role_n.Core.Types.{Text}
use role_n.Core.Text.{codes}
use role_n.Core.Rules.{Rule}
use role_n.Providers.{missing, holds, Writes}
use role_n.Providers.Registry.{Provider, key}
use role_n.Cli.RuleCommands.{Addition, init, add, RuleFiles, rule_cmd, bad_entry, chain_entries}
use role_n.Cli.RuleCommands.Effects.{Ending, rule_cmd_lem}

abbrev kimi : Provider
kimi = record {
  id = "kimi";
  ptype = api;
  auth = key;
  tunnel = none;
  endpoint = none;
  cli_path = none;
  key_ref = none;
  models = [];
  suspended = false;
  quota_url = none;
  quota_json_path = none;
}

abbrev own : Rule
own = record {
  id = codes "coder";
  role = codes "coder";
  conditions = [];
  fallback_chain = codes "local/qwen" ∷ [];
  min_quota_pct = some 10;
  priority = 2 ^ 31 + 5;
  project_scope = none;
}

abbrev files : RuleFiles
files = record { registry = holds (kimi ∷ []); rules = holds (own ∷ []); paused = missing }

abbrev rules_written : Writes (List Rule)
rules_written = record { write_ok = λ _. true; torn = λ _ old. old }

abbrev roles_written : Writes (List Text)
roles_written = record { write_ok = λ _. true; torn = λ _ old. old }

abbrev addition : Text → Addition
addition chain = record {
  role = codes "doc";
  chain = chain;
  id = none;
  priority = 2 ^ 31;
  min_quota_pct = none;
  project = none;
}

rule_cmd_lem_example :
    Ending init files (own ∷ []) (rule_cmd rules_written roles_written init files)
rule_cmd_lem_example =
    rule_cmd_lem rules_written roles_written init files (own ∷ []) ((refl, tt), refl) refl

chain_entries-spaces : chain_entries (codes " kimi/k3 ,, x/y") ≡ codes "kimi/k3" ∷ codes "x/y" ∷ []
unfolding chain_entries
chain_entries-spaces = refl

rule_cmd-bad_entry :
    (rule_cmd rules_written roles_written (add (addition (codes "kimi"))) files).0
    ≡ bad_entry (codes "kimi")
unfolding rule_cmd
rule_cmd-bad_entry = refl
