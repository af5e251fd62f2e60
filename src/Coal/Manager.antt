-- ===== src/Coal/Manager.antt =====
-- coal/manager.go: the operations of a manager on a collection of documents of one type.
-- A filter, an update and a sort come with the outcome of their translation (coal/translator.go).
-- `now` is the clock where Clean reads it and `fresh` an ID that New would answer.
pub mod Defs
pub mod Mutations
pub mod Writes
pub mod Inserts
pub mod Rules
pub mod Ids
