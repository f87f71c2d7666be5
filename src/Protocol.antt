-- ===== src/Protocol.antt =====
-- frontend/native/crypto_core/src/protocol.rs: `Framing` has the reader and the writers, `Reads` and
-- `Accepts` the rules by which the decoders built from them are verified in both directions.
pub mod Framing
pub mod Reads
pub mod Writing
pub mod Accepts
pub mod Fields
pub mod Hashing
pub mod Repeat
pub mod RoundTrip
pub mod Tests
