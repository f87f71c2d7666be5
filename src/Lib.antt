-- ===== src/Lib.antt =====
-- The native cryptographic core of the communication platform, frontend/native/crypto_core: a Rust
-- library that the Dart client calls. It encodes, signs, checks and decodes what devices exchange.
-- Modelled here are the layers below the pairwise sessions, and the envelopes of these; each
-- file opens with the code it is about.
--
-- Parts, and the files that model them:
-- - Base: the error codes and result type of frontend/native/crypto_core/src/error.rs, byte
--   strings, big-endian integers, and UTF-8 text as its bytes.
-- - Protocol: frontend/native/crypto_core/src/protocol.rs and
--   frontend/native/crypto_core/src/bounds.rs. A function on `&mut Reader` is a `Parser`, which
--   returns the reader it leaves; a function that appends to a `Vec<u8>` is a `Writer`. `Reads`
--   has the rules for decoders that read back what was written, `Accepts` and `Fields` those for
--   decoders that accept nothing else.
-- - Cbor: the canonical readers of frontend/native/crypto_core/src/application.rs (peek,
--   read_uint, read_text and so on), over the interface of minicbor, which is a parameter;
--   `IsCbor` states what RFC 8949 says of it.
-- - Provider: the trait of frontend/native/crypto_core/src/provider.rs by which the protocol code
--   reaches the primitives, with the third-party functions that the prekeys call besides.
-- - Room and Group: frontend/native/crypto_core/src/room_control.rs and
--   frontend/native/crypto_core/src/group_control.rs. Their data and `validate` stand in the
--   parent; `Projection` and `ProjectionReader` are the frame that Dart exchanges, `Canonical` and
--   `CanonicalReader` the deterministic CBOR, `Sealing` has `seal` and `open` (here
--   `open_control`).
-- - Attachment: frontend/native/crypto_core/src/attachment.rs. The static table of sessions is a
--   `World` that each of the six operations takes and returns, also when it fails; the
--   secretstream, SHA-256 and the random source are the parameter `Streams`. `Headers` and
--   `Canonicity` are about the header, `Sizes` about the sizes in it. `Headers` and `Canonicity` are about the header.
-- - DeviceSignatures: frontend/native/crypto_core/src/device_signatures.rs. `Encoder` is a `Writer`
--   with its bound; `Transcripts` has the signed bytes of the four kinds of statement, `Injective`
--   that they tell the statements apart.
-- - Prekey: frontend/native/crypto_core/src/prekey_state.rs. The records and small steps stand in
--   the parent; `Codec`, `CodecReader` and `Migration` are `encode_device_state` and
--   `decode_device_state`, `Checks` the validation, `Replenish`, `Rotation` and `Identity` the
--   operations. An operation with `&mut DeviceState` is an `Operation` (Prekey/Operations.antt): it
--   takes and returns the state and the random source, also when it fails. `Triples` has the rules
--   by which such operations are verified, `Soundness` the invariant, `Growth` and `RotationLaws`
--   that the operations keep it, `Steps` the step relation, `Persistence` the round trip. A live
--   state (`Live`) is one with the sizes, public keys and signatures that the decoder checks; the
--   other `Live` files are about the operations that make keys, `Lifetime` joins all of it.
--   `RotationSpec` says what a rotation is to do, `RotationCases` and `RotationProgress` are about
--   `prepare_rotation` and that. The random source, the key pairs and signatures are assumed to do
--   what they document (`IsHonest`, `IsKeyed`; `IsWorking` where they are to succeed).
-- - Pairwise: frontend/native/crypto_core/src/pairwise.rs, of which the headers, the envelopes and
--   the sizes they are padded to. The records stand in the parent, `Reading` has
--   `RatchetHeader::parse` and `Envelope::parse`, `Writing` what the senders write and
--   `choose_bucket`; `Headers` is about the headers, `Buckets` about the sizes, `Envelopes` joins
--   them.
-- - Foundation: frontend/native/crypto_core/src/cbor.rs, over the same interface of minicbor and
--   two more of its methods.
--
-- Rust's types are predicates (`IsTyped`, `IsArray`, `IsText`; that of Prekey/Typed.antt has besides
-- what the decoder asks of a state); integers are natural numbers, with the wrap-around of `u64`
-- addition written out and checked arithmetic as in the source. `usize` has 64 bits. Loops are structural recursion on a count or a list, so no fuel is needed.
-- Allocation is taken to succeed, the mutex is never poisoned, and memory erasure has no effect
-- that a caller sees.
--
-- Not modelled: the primitives themselves and minicbor, which are other libraries; the C interface
-- of frontend/native/crypto_core/src/lib.rs; the keys, states and encryption of pairwise sessions,
-- enrollment and application events; the Python server and the Dart and Kotlin client.
pub mod Protocol
pub mod Cbor
pub mod Provider
pub mod Room
pub mod Group
pub mod Attachment
pub mod DeviceSignatures
pub mod Prekey
pub mod Pairwise
pub mod Foundation
pub mod Base
