-- ===== src/Reliability.antt =====
-- reliability/: deployments, their rollback and capacity, and the contracts that they share.
pub mod Capacity
pub mod Contracts
pub mod Promotion
pub mod Rollback
pub mod Warm
mod ControllerTests
mod Tests
