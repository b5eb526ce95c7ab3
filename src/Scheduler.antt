-- ===== src/Scheduler.antt =====
-- scheduler/ and contracts/routing.py: which replica serves a request, and who holds its capacity.
pub mod Contracts
pub mod Policy
pub mod Eligibility
pub mod Router
mod Tests
