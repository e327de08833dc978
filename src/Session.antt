-- ===== src/Session.antt =====
-- moqt-core/src/session/: request ids, the requests of a session and their answers.
pub mod RequestIds
pub mod Requests
pub mod Subgroups
pub mod Events
pub mod Streams
pub mod Handshake
mod Examples
