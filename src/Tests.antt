-- ===== src/Tests.antt =====
-- Concrete runs of the model, and its theorems at concrete inputs.
mod Data
mod Keys
mod Values
mod Stores
mod Queries
mod Navigators
mod Searches
mod Logs
mod Ordered
mod Floats
mod Indexes
mod Vectors
mod Filters
