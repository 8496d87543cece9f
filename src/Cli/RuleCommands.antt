-- ===== src/Cli/RuleCommands.antt =====
-- `rule_cmd` of rolen-cli/src/main.rs: the commands on the routing rules. The listing only prints; the
-- dry run is the decision of Core/Rules/Chain.
pub mod Valid
pub mod Effects
mod Tests
use role_n.Prelude.{
  ℕ, ◌^◌, String, Bool, true, false, not, Option, none, some, List, [], ◌∷◌, ◌++◌, map,
  if◌then◌else◌, eqb, ◌==◌, nat_eq, list_eq, string_eq, contains, filter, find, length,
}
use role_n.Prelude.Keyed.{has_key, retain_not, is_found}
use role_n.Core.Types.{Text}
use role_n.Core.Text.{codes, is_empty, split, trim}
use role_n.Core.Text.Numbers.{show}
use role_n.Core.Rules.{Rule}
use role_n.Core.Rules.Paused.{set_role_paused}
use role_n.Providers.{Disk, load, Writes, save}
use role_n.Providers.Registry.{Provider, id_of, get_provider}

pub record Seed : Type 0 where
  pub name : String
  pub for : String
  pub chain : List (String × String)

abbrev pub seeds : List Seed
seeds =
    record {
      name = "planner";
      for = "planner";
      chain = ("kimi", "k3") ∷ ("anthropic", "claude-sonnet-5") ∷ ("ollama-cloud", "glm-5.2") ∷ [];
    }
    ∷ record {
      name = "summarizer";
      for = "summarizer";
      chain =
          ("kimi", "k3")
          ∷ ("anthropic", "claude-haiku-4-5-20251001")
          ∷ ("ollama-local", "phi3:mini")
          ∷ [];
    }
    ∷ record {
      name = "coder";
      for = "coder";
      chain =
          ("kimi", "kimi-for-coding")
          ∷ ("ollama-cloud", "kimi-k2.7-code")
          ∷ ("ollama-local", "qwen2.5-coder:7b")
          ∷ [];
    }
    ∷ record {
      name = "tool-runner";
      for = "tool-runner";
      chain =
          ("ollama-local", "qwen2.5-coder:7b")
          ∷ ("ollama-local", "mistral:latest")
          ∷ ("ollama-cloud", "qwen3.5:397b")
          ∷ [];
    }
    ∷ record {
      name = "reviewer";
      for = "reviewer";
      chain = ("anthropic", "claude-sonnet-5") ∷ ("kimi", "k3") ∷ [];
    }
    ∷ record {
      name = "image-reader";
      for = "image-reader";
      chain = ("ollama-local", "mistral-small3.2:latest") ∷ ("ollama-vc", "qwen3.8:27b") ∷ [];
    }
    ∷ record {
      name = "doc-reader";
      for = "doc-reader";
      chain = ("ollama-local", "qwen3:30b") ∷ ("ollama-cloud", "deepseek-v4-flash:0731") ∷ [];
    }
    ∷ record {
      name = "doc-writer";
      for = "doc-writer";
      chain =
          ("ollama-local", "glm-4.7-flash:q4_K_M")
          ∷ ("ollama-cloud", "deepseek-v4-flash:0731")
          ∷ [];
    }
    ∷ record {
      name = "interrogator";
      for = "interrogator";
      chain = ("kimi", "k3") ∷ ("anthropic", "claude-haiku-4-5-20251001") ∷ [];
    }
    ∷ []

abbrev pub has : List Provider → String → Bool
has reg id = is_found id_of (get_provider id reg)

abbrev pub entry_text : String × String → Text
entry_text (p, m) = codes p ++ b'/' ∷ codes m

-- The entries whose provider is registered.
abbrev pub seed_chain : List Provider → List (String × String) → List Text
seed_chain reg chain = map entry_text (filter (λ e. has reg e.0) chain)

abbrev pub rule_id : Rule → Text
rule_id r = r.id

-- `rules.iter().any(|r| r.id == id)`
abbrev pub any_id : Text → List Rule → Bool
any_id id rules = has_key rule_id id rules

abbrev pub seeded_rule : Seed → List Text → Rule
seeded_rule s chain = record {
  id = codes s.name;
  role = codes s.for;
  conditions = [];
  fallback_chain = chain;
  min_quota_pct = none;
  priority = 2 ^ 31;
  project_scope = none;
}

unfoldable pub seed : List Provider → Seed → List Rule → List Rule
seed reg s rules =
    let chain = seed_chain reg s.chain in
    if is_empty chain
    then rules
    else (if any_id (codes s.name) rules then rules else rules ++ seeded_rule s chain ∷ [])

unfoldable pub seed_all : List Provider → List Seed → List Rule → List Rule
unfolding seed
seed_all reg [] rules = rules
seed_all reg (s ∷ rest) rules = seed_all reg rest (seed reg s rules)

pub record Addition : Type 0 where
  pub role : Text
  pub chain : Text
  pub id : Option Text
  pub priority : ℕ
  pub min_quota_pct : Option ℕ
  pub project : Option Text

pub data RuleAction : Type 0 where
  init : RuleAction
  add : Addition → RuleAction
  remove : Text → RuleAction
  pause resume : Text → RuleAction

-- How a command ends.
pub data Ended : Type 0 where
  done unreadable_file not_written : Ended
  empty_chain no_such_rule : Ended
  bad_entry id_taken : Text → Ended

pub record RuleFiles : Type 0 where
  pub registry : Disk (List Provider)
  pub rules : Disk (List Rule)
  pub paused : Disk (List Text)

unfoldable pub chain_entries : Text → List Text
unfolding split trim
chain_entries chain = filter (λ s. not (is_empty s)) (map trim (split b',' chain))

abbrev pub has_slash : Text → Bool
has_slash e = contains e b'/'

abbrev pub first_bad : List Text → Option Text
first_bad entries = find (λ e. not (has_slash e)) entries

abbrev pub id_or_default : Option Text → Text → List Text → Text
id_or_default none role entries = role ++ b'-' ∷ show (length entries)
id_or_default (some id) role entries = id

abbrev pub added_rule : Addition → List Text → Rule
added_rule a entries = record {
  id = id_or_default a.id a.role entries;
  role = a.role;
  conditions = [];
  fallback_chain = entries;
  min_quota_pct = a.min_quota_pct;
  priority = a.priority;
  project_scope = a.project;
}

module _ (rules_file : Writes (List Rule)) (paused_file : Writes (List Text)) where
  abbrev written : RuleFiles → Bool × Disk (List Rule) → Ended × RuleFiles
  written files (ok, disk) = (if ok then done else not_written, record files { rules = disk })

  abbrev seeding : Option (List Provider) → Option (List Rule) → RuleFiles → Ended × RuleFiles
  seeding none rules files = (unreadable_file, files)
  seeding (some reg) none files = (unreadable_file, files)
  seeding (some reg) (some rules) files =
      written files (save rules_file (seed_all reg seeds rules) files.rules)

  abbrev adding : Rule → Option (List Rule) → RuleFiles → Ended × RuleFiles
  adding rule none files = (unreadable_file, files)
  adding rule (some rules) files =
      if any_id rule.id rules
      then (id_taken rule.id, files)
      else written files (save rules_file (rules ++ rule ∷ []) files.rules)

  abbrev pub checked : Addition → List Text → Option Text → RuleFiles → Ended × RuleFiles
  checked a entries (some e) files = (bad_entry e, files)
  checked a entries none files = adding (added_rule a entries) (load [] files.rules) files

  unfoldable pub rule_add : Addition → RuleFiles → Ended × RuleFiles
  unfolding chain_entries show
  rule_add a files =
      let entries = chain_entries a.chain in
      if is_empty entries then (empty_chain, files) else checked a entries (first_bad entries) files

  abbrev removing : Text → Option (List Rule) → RuleFiles → Ended × RuleFiles
  removing id none files = (unreadable_file, files)
  removing id (some rules) files =
      let left = retain_not rule_id id rules in
      if eqb (length left) (length rules)
      then (no_such_rule, files)
      else written files (save rules_file left files.rules)

  abbrev pausing : RuleFiles → Bool × Disk (List Text) → Ended × RuleFiles
  pausing files (ok, disk) = (if ok then done else not_written, record files { paused = disk })

  unfoldable pub rule_cmd : RuleAction → RuleFiles → Ended × RuleFiles
  unfolding seed_all rule_add set_role_paused get_provider retain_not
  rule_cmd init files = seeding (load [] files.registry) (load [] files.rules) files
  rule_cmd (add a) files = rule_add a files
  rule_cmd (remove id) files = removing id (load [] files.rules) files
  rule_cmd (pause role) files = pausing files (set_role_paused paused_file role true files.paused)
  rule_cmd (resume role) files = pausing files (set_role_paused paused_file role false files.paused)
