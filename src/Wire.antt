-- ===== src/Wire.antt =====
-- moqt-core/src/wire: the wire format of messages and data stream headers, and its primitives.
mod Examples
pub mod Varint
pub mod Message
pub mod ReasonPhrase
pub mod TrackNamespace
pub mod Parameter
pub mod KeyValuePair
pub mod SubgroupHeader
pub mod Object
pub mod Setup
pub mod Subscribe
pub mod SubscribeOk
pub mod PublishNamespace
pub mod PublishDone
pub mod RequestOk
pub mod RequestError
