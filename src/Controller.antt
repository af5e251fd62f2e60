-- ===== src/Controller.antt =====
-- The controllers of the root package.
pub mod Model
pub mod Callbacks
pub mod Resources
pub mod Denials
pub mod Updates
pub mod Defers
mod Tests
