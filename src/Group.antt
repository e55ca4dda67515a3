-- ===== src/Group.antt =====
-- The group crate (group/src): what it adds to OpenMLS.
pub mod Framing
pub mod State
mod Tests
