-- ===== src/Repository.antt =====
-- internal/repository/task_v1.go and task_audience.go: the primitives over the tables.
mod Tasks
mod Claims
mod Submissions
mod Money
mod Reports
unfoldable pub use Tasks.*
unfoldable pub use Claims.*
unfoldable pub use Submissions.*
unfoldable pub use Money.*
unfoldable pub use Reports.*
