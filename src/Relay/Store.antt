-- ===== src/Relay/Store.antt =====
-- `RelayStore` of relay/src/store.rs: the prekey directory and the mailboxes. Unix time is an
-- argument of each call. The snapshot on disk is in the child module Persistence.
pub mod Defs
pub mod Mailbox
pub mod Queue
pub mod Directory
pub mod Run
pub mod Persistence
pub mod Recovery
pub mod Reopen
pub mod Restart
