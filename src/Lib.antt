-- ===== src/Lib.antt =====
-- The bridge that puts the sessions of coding agents on D-Bus: a model of its state and its rules.
--
-- Hooks of the agents reach the service over a socket (agent-dbus-service/src/socket.rs) and are
-- dispatched in agent-dbus-service/src/service.rs; each session is an object on the bus, whose
-- properties clients read and whose pending requests they answer.
--
-- Core: agent-dbus-core/src. Core/Path is path.rs (`safe_path_segment`, `session_path`,
--   `agent_session_node_key`, `session_key`), Core/Telemetry is telemetry.rs.
-- Ended: `ExpiringSessionSet` of agent-dbus-service/src/main.rs. Instants are numbers of clock ticks,
--   and each reading of the clock is an argument.
-- Broker: agent-dbus-service/src/request_broker.rs, with the state of each one-shot channel.
-- Session: agent-dbus-service/src/dbus.rs and types.rs. Session/Object has the data, Session/Pending
--   the queue of requests and the reasons for attention, Session/Respond the answers of clients.
-- Codex: agent-dbus-service/src/providers/codex. Codex/Telemetry is `Parser` and Codex/Reader `Reader`
--   of telemetry.rs, Codex/Cache is `BoundedCache` of artifacts.rs, Codex/Search the search of
--   the directories and Codex/Artifacts the rest of it, Codex/Metrics is metrics.rs, Codex/Title is
--   title.rs and Codex/Compact is compact.rs, each with its watcher, and Codex/Query has the query of
--   title.rs and the paths of files. What they answer the handler takes as an argument.
-- Bus: the rest of dbus.rs. Bus is `SessionSnapshot`, `snapshot` and `emit_changed_properties`,
--   Bus/Properties the getters of the interface, Bus/Store `update_session` and
--   `update_existing_session` on a store of objects by path.
-- Service: agent-dbus-service/src/service.rs and service/metrics.rs. Service reads the data of a hook,
--   Service/Metrics is metrics.rs, and Service/Events the `match` of `handle_hook_connection`: the
--   event that a hook names and its update of the session, the closure of `update_session`.
-- Permission: agent-dbus-service/src/service/permission.rs: options and replies, with the replies of
--   providers/gemini.rs and providers/opencode.rs. Permission/Prompt has the prompt and its detail,
--   Permission/Describe the descriptions of options, Permission/Elicitation the options of
--   elicitations, Permission/Review the deferral of providers/codex/permissions.rs.
-- Locus: agent-dbus-service/src/locus.rs, the calls as values; Locus/Tries is about those that fail.
-- Bridge: the state of the service, with agent-dbus-service/src/session_store.rs, session_parents.rs and
--   `update_hook`, `emit` and `drain` of providers/codex/telemetry.rs on it. Bridge/Handler is
--   `handle_hook_connection`, with what comes before the `match` in Bridge/Handler/Prepared and the
--   arms of it in Bridge/Handler/Arms, Bridge/Wait `handle_elicitation_event`, before and after its
--   wait, Bridge/Watch the watcher of parents, and Bridge/System the steps of the whole service. The
--   other files are proofs: Bridge/Sound says what is kept, Bridge/Keeps, Removal, Steps, Served and Watchers
--   that each operation keeps it, Bridge/Invariant that each step does; Bridge/Gone is about removals,
--   Bridge/Turn and Reaped about the watcher, Bridge/Answer and Fresh about requests, Bridge/Late
--   and Buried about ended sessions. Bridge/Carried brings what the parts keep up to the handlers and watchers.
--   On it stand Bridge/Fate, with a specification of questions and their answers in Bridge/Fate/Desk
--   that the service refines, and Bridge/Shown, about the requests that clients see.
-- Socket: agent-dbus-service/src/socket.rs. Client: agent-dbus-service/src/agent_hook.rs and
--   agent_respond.rs; Client/Message is `main` of the former, and Client/Sent joins it to Socket.
-- Agents: the lineage of subagents: agent-dbus-service/src/providers/codex/subagent.rs, the lineage in
--   providers/opencode.rs, and `hook_subagent_info` of service.rs.
-- Opencode: agent-dbus-service/src/providers/opencode.rs, `token_map` and `apply_telemetry`.
-- Decimal prints and reads numbers. Prelude, Dict, Text and Json hold what the parts share: lists and
--   options, `HashMap`, `str` and `serde_json::Value`. Tests has the theorems at concrete inputs.
--
-- A hash map is an association list with distinct keys, and no result depends on its order. Counters
-- and revisions of 64 bits wrap around as in a release build. A loop that pops a queue recurs on the
-- queue, and `none` stands for one that would never end. `hex_loop` has fuel for eight digits, and a
-- code point has at most six. The parsing and printing of JSON and the contents of files
-- are arguments.
--
-- A step of the service is a hook up to its end or its wait, the rest of a handler after its wait, an
-- answer, or one turn of a watcher: within a step the state of others does not change. The source
-- awaits between calls, so a handler can be interrupted where the steps here cannot; what holds
-- of steps holds of the code as far as its steps do not overlap. Calls on the bus do not fail. A wait may
-- end at any time, with the answer that its channel has then.
--
-- Not modelled: the runtime, the pipes, the socket and the bus connection, which are input and output;
-- when a wait times out; the changes of files while they are read; what the Locus service keeps; the
-- types of agent-dbus-core/src/provider.rs that no code uses; the plugin's code.
pub mod Prelude
pub mod Dict
pub mod Text
pub mod Json
pub mod Core
pub mod Decimal
pub mod Ended
pub mod Broker
pub mod Session
pub mod Bus
pub mod Codex
pub mod Opencode
pub mod Agents
pub mod Service
pub mod Permission
pub mod Locus
pub mod Bridge
pub mod Socket
pub mod Client
pub mod Tests
