-- ===== src/Protocol.antt =====
-- What two clients of the signaling server understand of each other, and what the client does with
-- the messages of the server.
pub mod Json
pub mod Messages
pub mod Events
pub mod Chat
pub mod Labels
