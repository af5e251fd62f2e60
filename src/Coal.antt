-- ===== src/Coal.antt =====
-- Package coal: the document base, the collection driver and the manager of a collection.
pub mod Model
pub mod Tags
pub mod Driver
pub mod Memory
pub mod Triples
pub mod Outcomes
pub mod Kept
pub mod Moves
pub mod Manager
pub mod Transactions
pub mod Retries
mod Tests
