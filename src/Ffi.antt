-- ===== src/Ffi.antt =====
-- The C interface of the ffi crate (ffi/src), over the protocol core, the relay client and the mesh.
pub mod Buffer
pub mod Accounts
pub mod Sessions
pub mod Relays
pub mod MeshNodes
mod Tests
