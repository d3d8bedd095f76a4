-- ===== src/Tests.antt =====
-- The development at concrete inputs: a small cluster in memory, and each theorem with a hypothesis or
-- a parameter applied in it.
mod Cluster
mod Transitions
mod Decisions
mod Components
mod Policies
mod Documents
mod Json
mod Store
mod Watches
mod Rounds
mod Runtime
mod Observed
mod Assembled
