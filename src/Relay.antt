-- ===== src/Relay.antt =====
-- moqt-relay/src/relay.rs: the relay.
pub mod Keys
pub mod State
pub mod Utf8
pub mod Subscribe
pub mod World
pub mod DataStream
pub mod Registry
pub mod Connection
mod Examples
