-- ===== src/Audit.antt =====
-- internal/task/invariants.go: the audit of a task's counters against its claims and submissions, and
-- the lemmas on it for every operation.
pub mod Sums
pub mod Moves
pub mod Primitives
pub mod Rows
pub mod Balance
pub mod Claims
pub mod Submissions
pub mod Intake
pub mod Publisher
pub mod System
pub mod Exits
pub mod Outcomes
pub mod Once
pub mod Sweep
pub mod Governance
