-- ===== src/Websockets.antt =====
-- app/websockets/: real-time delivery to WebSocket clients.
pub mod Manager
pub mod Listeners
pub mod Pubsub
pub mod Lifetime
