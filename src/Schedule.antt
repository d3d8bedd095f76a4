-- ===== src/Schedule.antt =====
-- internal/schedule: the windows in which workloads are scaled down.
pub mod Calendar
pub mod Clock
pub mod Window
pub mod Instance
