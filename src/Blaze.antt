-- ===== src/Blaze.antt =====
-- The file storage of blaze.
pub mod Model
pub mod Files
pub mod Links
pub mod LinkLists
pub mod Ambiguities
pub mod Migration
pub mod Steps
pub mod History
pub mod LinkSteps
pub mod Bound
pub mod Lifecycle
pub mod Evolution
pub mod Evolving
pub mod Lives
pub mod Claims
pub mod ViewKeys
pub mod Plans
mod Tests
mod LinkTests
