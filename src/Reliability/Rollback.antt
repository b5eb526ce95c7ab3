-- ===== src/Reliability/Rollback.antt =====
-- reliability/rollback.py: the SQLite truth of deployments and rollbacks, `DeploymentStore`.
pub mod Store
pub mod Deployments
pub mod Operations
pub mod Invariant
pub mod Freezing
pub mod Resolving
pub mod Update
pub mod Preservation
pub mod Detection
pub mod Soundness
pub mod Workflow
pub mod Leases
pub mod Facts
pub mod Controller
pub mod Resumption
