-- ===== src/Tui.antt =====
-- rolen-tui: the dialogs whose state decides what is stored.
pub mod Alerts
pub mod RuleEditor
pub mod Transcript
