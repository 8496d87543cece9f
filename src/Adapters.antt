-- ===== src/Adapters.antt =====
-- rolen-cliadapters: command line agents that work on a copy of the workspace.
pub mod Overlay
