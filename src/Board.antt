-- ===== src/Board.antt =====
-- src/whiteboard/schema: the elements of a whiteboard and their canonical form.
pub mod Fields
pub mod Normalize
pub mod Repair
