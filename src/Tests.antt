-- ===== src/Tests.antt =====
-- Concrete databases on which the theorems apply, and runs of the operations on them.
pub mod Data
pub mod Delivery
pub mod Money
pub mod Trail
pub mod Tasks
pub mod Claims
pub mod Texts
pub mod Creation
pub mod Sweep
pub mod Reporting
pub mod Rooms
pub mod Rates
pub mod Refunds
