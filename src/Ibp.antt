-- ===== src/Ibp.antt =====
-- runner/pkg/ibp and runner/pkg/socket: the incremental build protocol between the watching CLI
-- (server) and a client, over a socket that carries one JSON object for each message.
pub mod Json
pub mod Message
pub mod Caps
pub mod Socket
pub mod Server
pub mod Client
pub mod Cycle
pub mod WireFormat
pub mod Handshake
pub mod Answers
pub mod Agreement
pub mod Retry
mod Witnesses
