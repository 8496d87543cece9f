-- ===== src/Providers.antt =====
-- rolen-providers: the settings files that decide which provider is used, the quota of each, and the
-- state of the providers that the rules are evaluated against. A settings file is missing, cannot be
-- read, or holds a value; a write can fail. The text formats are libraries: what is written is read.
pub mod Registry
pub mod Catalog
pub mod Quota
pub mod Budget
pub mod Remaining
pub mod Collect
mod Tests
use role_n.Prelude.{Bool, true, false, Option, none, some, if◌then◌else◌}

pub data Disk (A : Type 0) : Type 0 where
  missing unreadable : Disk A
  holds : A → Disk A

-- `load`: the default for a missing file, `none` for an error.
abbrev pub load : {A : Type 0} → A → Disk A → Option A
load new missing = some new
load new unreadable = none
load new (holds a) = some a

pub record Writes (A : Type 0) : Type 0 where
  pub write_ok : A → Bool
  -- what a failed write leaves
  pub torn : A → Disk A → Disk A

-- `save`: whether it succeeds, and the file after it.
abbrev pub save : {A : Type 0} → Writes A → A → Disk A → Bool × Disk A
save w a disk = if w.write_ok a then (true, holds a) else (false, w.torn a disk)
