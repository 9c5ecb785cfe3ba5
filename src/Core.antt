-- ===== src/Core.antt =====
-- The crate agent-dbus-core: names of agents, paths and keys of sessions, the usage vocabulary.
pub mod Path
pub mod Telemetry
use claude_dbus.Prelude.{String, Bool, ◌||◌, ◌==◌}

-- agent-dbus-core/src/agent.rs
abbrev pub is_gemini_agent : String → Bool
is_gemini_agent agent_name = agent_name == "gemini" || agent_name == "gemini-cli"

abbrev pub is_opencode_agent : String → Bool
is_opencode_agent agent_name = agent_name == "opencode" || agent_name == "opencode-cli"
