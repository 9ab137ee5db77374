-- ===== src/Net.antt =====
-- src/util: the guard of outgoing requests.
pub mod Address
pub mod Guard
pub mod Fetch
