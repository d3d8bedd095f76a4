-- ===== src/Lifecycle.antt =====
-- internal/lifecycle: what to do with a workload (decision.go), and the revision that its age is
-- counted from (revision.go).
pub mod Decision
pub mod Revision
