-- ===== src/Stick/Lists.antt =====
-- stick/lists.go: the operations on lists as sets, and their laws.
pub mod Defs
pub mod Laws
pub mod Unique
pub mod Seen
