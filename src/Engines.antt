-- ===== src/Engines.antt =====
-- src/finserve/engines: the streamed completions of an engine behind HTTP.
pub mod Events
pub mod Completion
pub mod Blocks
pub mod Accounting
mod Tests
