-- ===== src/Graph.antt =====
-- pkg/graph: triples and their binary form, variables and solutions, patterns.
pub mod Triple
pub mod Varint
pub mod Codec
pub mod Solution
pub mod Pattern
