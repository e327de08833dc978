-- ===== src/Clients.antt =====
-- The binaries moqt-pub and moqt-sub: video in IVF containers, groups and command lines.
pub mod Args
pub mod Ivf
pub mod Publisher
pub mod Subscriber
pub mod Delivery
pub mod Pipeline
pub mod Relayed
mod Examples
