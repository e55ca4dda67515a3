-- ===== src/Core.antt =====
-- The protocol core (core/src).
pub mod Error
pub mod Wire
pub mod Bincode
pub mod Encoding
pub mod Crypto
pub mod Kdf
pub mod Pqkem
pub mod Identity
pub mod Handshake
pub mod Ratchet
pub mod Session
pub mod Enclave
pub mod Envelope
pub mod Inbox
pub mod Safety
pub mod Codec
pub mod Toy
pub mod Formats
mod Tests
mod StateTests
mod EnclaveTests
