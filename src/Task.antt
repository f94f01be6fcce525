-- ===== src/Task.antt =====
-- internal/task: the state machines of the Task 1.0 kernel.
mod States
mod Transition
mod Terms
pub use States.*
unfoldable pub use Transition.*
unfoldable pub use Terms.*
