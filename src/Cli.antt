-- ===== src/Cli.antt =====
-- rolen-cli: the commands that change what is stored. What a command prints is not modelled.
pub mod ProviderCommands
pub mod RuleCommands
