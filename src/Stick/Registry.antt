-- ===== src/Stick/Registry.antt =====
-- stick/registry.go: values that are indexed by several keys.
pub mod Defs
pub mod Laws
