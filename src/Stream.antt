-- ===== src/Stream.antt =====
-- moqt-core/src/stream/: the readers of control, request and data streams.
pub mod Transport
pub mod Frame
pub mod Request
pub mod Data
pub mod Examples
