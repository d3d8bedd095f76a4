-- ===== src/Controller.antt =====
-- internal/controller: the transition of one workload, the rounds over all of them, and the supervisors
-- of the watches.
pub mod Effects
pub mod Identity
pub mod Draft
pub mod Prepare
pub mod Act
pub mod Transition
pub mod Walk
pub mod Failures
pub mod Durable
pub mod Deletion
pub mod Orchestrator
pub mod Supervisor
pub mod Whole
pub mod Cluster
