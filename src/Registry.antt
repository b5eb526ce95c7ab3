-- ===== src/Registry.antt =====
-- src/finserve/registry: the journal of the stages of a model's production.
pub mod Stages
mod Tests
