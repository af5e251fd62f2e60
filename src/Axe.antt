-- ===== src/Axe.antt =====
-- Package axe: jobs kept in a collection.
pub mod Model
pub mod Basic
pub mod Steps
pub mod Closure
pub mod Lifecycle
pub mod Labels
pub mod Leases
pub mod Task
pub mod Executions
mod TaskTests
mod Tests
