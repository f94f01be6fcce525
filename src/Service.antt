-- ===== src/Service.antt =====
-- internal/service, the task operations: each runs in one transaction, its database functions in
-- the order of the source.
pub mod Limits
pub mod Claim
pub mod Deliver
pub mod Accept
pub mod Submit
pub mod Publisher
pub mod Governance
