-- ===== src/Runtime.antt =====
-- rolen-runtime: the sandbox, the sinks and the limits of the agent sessions.
pub mod Files
pub mod Sandbox
pub mod Sink
pub mod Limit
pub mod Agent
