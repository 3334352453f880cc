-- ===== src/Journal.antt =====
-- journal.go: journal entries, their keys and their binary form.
pub mod Entry
pub mod Log
