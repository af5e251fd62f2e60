-- ===== src/Stick.antt =====
-- Package stick: operations on lists of comparable items.
pub mod Lists
pub mod Registry
mod Tests
