-- ===== src/Index.antt =====
-- pkg/index/index.go: the keys of the six indexes, and the choice of an index for a query.
pub mod Escape
pub mod Name
pub mod Key
pub mod Range
pub mod Select
pub mod Query
pub mod Prefix
pub mod Unique
