-- ===== src/Codex.antt =====
-- agent-dbus-service/src/providers/codex: what the bridge learns from Codex's own files.
pub mod Telemetry
pub mod Reader
pub mod Cache
pub mod Compact
pub mod Title
pub mod Metrics
pub mod Artifacts
pub mod Search
pub mod Query
