-- ===== src/Core/Envelope.antt =====
-- Sealed-sender envelopes (core/src/envelope.rs).
pub mod Defs
pub mod Bucket
pub mod RoundTrip
