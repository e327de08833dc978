-- ===== src/Buffer.antt =====
-- What the encoders and decoders share: `&mut Vec<u8>` and `&mut &[u8]` as a list of bytes that an
-- action reads or extends, and the ways of an `anyhow::Result` with one error for each message.
mod Actions
mod Rules
mod Inversion
mod Outcomes
mod Progress
unfoldable pub use Actions.*
pub use Rules.*
pub use Inversion.*
pub use Outcomes.*
pub use Progress.*
