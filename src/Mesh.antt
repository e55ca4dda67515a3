-- ===== src/Mesh.antt =====
-- The store-carry-forward mesh (mesh/src).
pub mod Node
pub mod Bounds
pub mod Routing
pub mod Dedup
pub mod Hops
mod Tests
