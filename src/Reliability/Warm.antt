-- ===== src/Reliability/Warm.antt =====
-- reliability/warm_routes.py, warm_drain.py and capacity_store.py: which backend serves a
-- deployment, and when a retired one may be stopped.
pub mod Contracts
pub mod Store
pub mod Backends
pub mod Retirement
pub mod Routes
pub mod Baseline
pub mod Dispatch
pub mod Trail
pub mod Steps
pub mod Invariant
pub mod Preservation
pub mod Moves
pub mod Fences
pub mod Streams
pub mod Selection
pub mod History
pub mod Permanence
pub mod Repeats
pub mod Room
pub mod Agreement
mod Tests
