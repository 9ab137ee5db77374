-- ===== src/Collab.antt =====
-- src/auth and src/collab: collab tokens, the handshake of a socket and the recheck of its writes.
pub mod Token
pub mod Issue
pub mod Handshake
pub mod Socket
pub mod Snapshot
