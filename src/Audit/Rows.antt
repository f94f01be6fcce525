-- ===== src/Audit/Rows.antt =====
-- The effect of the primitives over claims, submissions and a task's own row on what the audit
-- reads.
mod ClaimRows
mod SubmissionRows
mod TaskRows
unfoldable pub use ClaimRows.*
unfoldable pub use SubmissionRows.*
unfoldable pub use TaskRows.*
