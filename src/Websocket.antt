-- ===== src/Websocket.antt =====
-- websocket/: the subscription client and the boundaries that it passes through.
pub mod Reconnect
pub mod Admission
pub mod Messages
pub mod Posts
pub mod Wires
pub mod Registry
pub mod Manager
