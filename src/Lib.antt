-- ===== src/Lib.antt =====
-- A model of RoleN, a runner of coding agents that write one workspace through a queue of tickets.
--
-- The parts and their files (source paths are from the repository's root):
--   Prelude: what the modules share. Prelude/Dict models HashMap and HashSet.
--   Core/Types: the write tickets of rolen-core/src/types.rs.
--   Core/Text: what the crates use of Rust's `str`, on lists of character numbers.
--   Core/Patch: rolen-core/src/patch.rs. `parse_hunks`, `locate`, `apply_patch` keep their names; a
--     panic of a slice is a value of `Attempt`. The children hold the proofs: Locate on where a hunk
--     goes, Apply on one hunk, Lines on the text around the lines, Whole on `apply_patch`.
--   Core/Diff: `simple_diff` there, with its specification in Core/Diff/Spec.
--   Runtime/Files: the file system below the workspace root, and the atomic write of
--     rolen-runtime/src/sink.rs and rolen-orchestrator/src/queue.rs. `Os` says which calls fail.
--   Orchestrator/Queue: the dispatcher thread of rolen-orchestrator/src/queue.rs. `handle` is one
--     round of its loop. Queue/System closes it with clients and applier threads as a step relation,
--     a panicking applier included.
--   Orchestrator/Apply: `apply_ticket` there, over Core/Patch and Runtime/Files.
--   Orchestrator/Dag: `validate_dag` of rolen-orchestrator/src/scheduler.rs.
--   Core/Rules: rolen-core/src/rules.rs. `for_role`, `merged_with`, `eval_condition`; Core/Rules/Chain
--     has `walk_chain` and `decide`, Core/Rules/Sorting the order of the candidates.
--   Core/Pricing: rolen-core/src/pricing.rs, the price list and the cost of a call.
--   Orchestrator/Questions: `blocked_by_question` of rolen-orchestrator/src/scheduler.rs.
--   Orchestrator/Scheduler: the loop of `run_projects` of the same file. `harvest_one` settles a finished task,
--     Scheduler/Tick offers the free slots to the waiting tasks, and Scheduler/Tick/System closes the
--     loop with the worker threads as a step relation.
--   Runtime/Sandbox: `sanitize_relative` and `resolve_in` of rolen-runtime/src/sink.rs.
--   Runtime/Sink: `DirectWriteSink` there.
--   Runtime/Limit: rolen-runtime/src/limit.rs, the permits of one provider as a step relation.
--   Runtime/Agent: of rolen-runtime/src/agent.rs the call of the model with its retries and migrations
--     (`call_loop`, the loop in `run`) and `maybe_compact`.
--   Core/Ledger: rolen-core/src/ledger.rs, the tables as lists of rows. `insert_ticket`, `upsert_session`,
--     `usage_since` and the others keep their names; Ledger/Journal, Counts, Entries, Shares and Schema
--     hold what is proved of them.
--   Core/Secrets: rolen-core/src/secrets.rs and vault.rs, where a secret is stored and read.
--   Providers: of rolen-providers/src the registry (registry.rs), the budgets (quota.rs), the refresh of
--     the models (client.rs), and the context of a routing decision (routing.rs). `Disk` is a settings
--     file that may be missing or unreadable.
--   Adapters/Overlay: rolen-cliadapters/src/overlay.rs. `harvest` runs the changes of a staging copy
--     through `apply_ticket` of Orchestrator/Apply.
--   Tui/RuleEditor: rolen-tui/src/rule_editor.rs, a dialog as the state of its controls. Form has
--     `build_rule`, Edit the buttons and `on_save`; Core/Rules/Chain/Readable says what the rule engine
--     makes of a rule that the editor accepts.
--   Core/Rules/Paused: the paused roles of rolen-core/src/rules.rs.
--   Tui/Alerts: `check_alerts` of rolen-tui/src/mission_control.rs, a pass over the subscriptions that
--     shows dialogs and suspends providers or pauses roles.
--   Tui/Transcript: `strip_ansi` of rolen-tui/src/transcript_view.rs.
--   Cli/RuleCommands: `rule_cmd` of rolen-cli/src/main.rs on the files of the registry, the rules and the
--     paused roles.
--   Cli/ProviderCommands: `provider_cmd` of rolen-cli/src/main.rs on the registry, the budgets and the
--     secrets; the tunnel specification is in Tunnel. Services of the network are parameters.
--
-- How they interact: the scheduler starts agents of an accepted task graph, agents submit tickets,
-- the dispatcher hands them to applier threads, and an applier runs `apply_ticket`, which calls
-- `apply_patch` for a diff. The agent of a task takes its provider and model from `decide`, holds a
-- permit of the provider, and writes through the queue or, alone, through the direct sink. A command
-- line agent works on a copy instead, whose changes become tickets. The queue keeps a journal of its
-- tickets in the ledger, and agents their usage; from the usage and the budgets comes the quota that
-- the rules read, and the rules come from the editor.
--
-- Parameters: the resolution of a path against the file system, the content hasher, and the outcome
-- of every call of the operating system; the replies of model providers, the
-- clock, and the operations on 64-bit floats.
-- Text is compared by characters; machine numbers are natural numbers, with the
-- overflow written out where it can occur (a parsed `usize`, a priority, the round-robin counter).
--
-- Fuel: `visit` has one more than the number of tasks, enough since each level turns a white task
-- grey. `walk` has two more, since each level but the last sees a new task.
-- `call_loop` has 12: four requests to each of three providers. Every other function is recursive on its
-- data.
--
-- Not modelled: the drawing of the terminal interface, the output of the command line, and the HTTP
-- clients of model providers, which are input and output around library calls; the text formats of
-- the settings files, of which it is supposed that what was written is read back.
pub mod Adapters
pub mod Cli
pub mod Core
pub mod Orchestrator
pub mod Prelude
pub mod Providers
pub mod Runtime
pub mod Tui
