-- ===== src/Evaluation.antt =====
-- src/finserve/evaluation: the quality rules of a model's answers.
pub mod Quality
pub mod Verdict
mod Tests
