-- ===== src/Ash.antt =====
-- Package ash: the authorization of requests by strategies of authorizers and enforcers.
pub mod Context
pub mod Strategy
pub mod Grants
pub mod Combinations
pub mod Enforcers
pub mod Restrictions
pub mod Whitelist
pub mod Whitelisted
pub mod Access
mod AccessTests
mod Tests
