-- ===== src/State/Capacity.antt =====
-- internal/state/capacity.go: how full the ConfigMap is.
use kube_workload_lm.Base.{ℕ, ◌*◌, ◌/◌, Bool, leb, ltb}

abbrev pub max_data_bytes : ℕ
max_data_bytes = 1048576

abbrev pub capacity_warning_bytes : ℕ
capacity_warning_bytes = max_data_bytes * 80 / 100

pub record Capacity : Type 0 where
  pub state_bytes : ℕ
  pub total_bytes : ℕ
  pub warning_bytes : ℕ
  pub limit_bytes : ℕ
  pub near_limit : Bool
  pub exceeded : Bool

unfoldable pub measure_capacity : ℕ → ℕ → Capacity
measure_capacity state_bytes total_bytes = record {
  state_bytes = state_bytes;
  total_bytes = total_bytes;
  warning_bytes = capacity_warning_bytes;
  limit_bytes = max_data_bytes;
  near_limit = leb capacity_warning_bytes total_bytes;
  exceeded = ltb max_data_bytes total_bytes;
}
