-- ===== src/Glut.antt =====
-- Package glut: values kept in a collection under a key, with locks that time out.
pub mod Model
pub mod Values
pub mod Basic
pub mod Locks
pub mod Held
pub mod Exclusion
pub mod Contention
pub mod Unguarded
pub mod History
pub mod Refusals
pub mod Placement
pub mod Acquisition
pub mod Progress
mod Tests
