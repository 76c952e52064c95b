-- ===== src/Contest.antt =====
-- contest_state.go: the index of one contest's QSOs and the scorer that reads it.
pub mod Types
pub mod Record
pub mod Points
pub mod Score
pub mod Advance
pub mod Sets
pub mod Keeps
pub mod Fresh
pub mod Agreement
pub mod Unscored
pub mod Queries
pub mod Invariant
pub mod Totals
pub mod Worked
