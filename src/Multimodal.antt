-- ===== src/Multimodal.antt =====
-- src/finserve/multimodal: the durable queue of visual jobs.
pub mod Contracts
pub mod Jobs
mod Tests
