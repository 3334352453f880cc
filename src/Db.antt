-- ===== src/Db.antt =====
-- levelgraph.go: the database over a key-value store.
pub mod State
pub mod Write
pub mod Read
pub mod Window
pub mod Indexed
pub mod Turns
pub mod Refine
pub mod Entries
pub mod Values
pub mod Query
