-- ===== src/Websocket.antt =====
-- internal/api/websocket/hub.go: who watches which notification, and the broadcast.
pub mod Hub
pub mod Connections
pub mod Watching
pub mod Broadcast
