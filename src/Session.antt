-- ===== src/Session.antt =====
-- agent-dbus-service/src/types.rs and src/dbus.rs: a session as the bus shows it.
pub mod Object
pub mod Pending
pub mod Respond
