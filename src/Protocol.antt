-- ===== src/Protocol.antt =====
-- crates/mh-protocol: the stdio frame codec, the JSON-RPC messages and the canonical encoding.
pub mod Framing
pub mod Message
pub mod Canonical
