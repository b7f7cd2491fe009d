-- ===== src/Server.antt =====
-- src/server_runtime.rs and src/server_websocket.rs: startup, health and the event stream.
pub mod Startup
pub mod Events
pub mod Routes
