-- ===== src/Vector.antt =====
-- vector: vectors, their distances and identifiers, and the flat index.
pub mod Interface
pub mod Float
pub mod Distance
pub mod Bits
pub mod Id
pub mod Flat
