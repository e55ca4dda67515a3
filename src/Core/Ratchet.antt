-- ===== src/Core/Ratchet.antt =====
-- The Double Ratchet (core/src/ratchet.rs): the definitions, and what is proved of them.
pub mod Defs
pub mod Cache
pub mod Order
pub mod Stored
pub mod Bounds
pub mod Chain
pub mod Delivery
pub mod Pending
pub mod Turn
pub mod Replay
