-- ===== src/Lifecycle/Decision.antt =====
-- internal/lifecycle/decision.go: the decision for one workload, from its age, its schedule, its
-- snapshot and its live replicas.
pub mod Outcomes
use kube_workload_lm.Base.{
  String, ◌<>◌, ◌==◌, Bool, true, false, ◌&&◌, not, Option, none, some, if◌then◌else◌,
}
use kube_workload_lm.Base.Int.{ℤ, min_ℤ, ◌==ℤ◌}
use kube_workload_lm.Base.Time.{Time, before, add}

abbrev pub reason_revision_expired : String
reason_revision_expired = "revision-lifecycle-expired"

abbrev pub reason_revision_expired_deleted : String
reason_revision_expired_deleted = "revision-lifecycle-expired:deleted"

abbrev pub reason_scale_down_skipped : String
reason_scale_down_skipped = "scale-down-skipped:redeploy"

abbrev pub reason_scale_down_skipped_replica_override : String
reason_scale_down_skipped_replica_override = "scale-down-skipped:replica-override"

abbrev pub reason_scale_down_window : String
reason_scale_down_window = "scale-down-window"

abbrev pub reason_restore_replicas : String
reason_restore_replicas = "restore-previous-replicas"

abbrev pub reason_active_window : String
reason_active_window = "active-window"

pub record DecisionInput : Type 0 where
  pub now : Time
  pub first_seen_at : Time
  pub max_age : ℤ
  pub current_replicas : ℤ
  pub snapshot_replicas : Option ℤ
  pub scheduled_down : Bool
  pub scheduled_window_name : String
  pub scheduled_target : ℤ
  pub expired_target : ℤ
  pub scale_down_skipped : Bool
  pub scale_down_skip_reason : String
  pub expired_action : String

pub record Decision : Type 0 where
  pub desired_replicas : ℤ
  pub reason : String
  pub needs_snapshot : Bool
  pub should_scale : Bool
  pub clear_snapshot_after_scale : Bool
  pub delete_workload : Bool

-- `!input.Now.Before(input.FirstSeenAt.Add(input.MaxAge))`
abbrev pub is_expired : DecisionInput → Bool
is_expired input = not (before input.now (add input.first_seen_at input.max_age))

-- A decision that leaves the replicas and the snapshot alone.
abbrev pub keep_replicas : DecisionInput → String → Decision
keep_replicas input reason = record {
  desired_replicas = input.current_replicas;
  reason = reason;
  needs_snapshot = false;
  should_scale = false;
  clear_snapshot_after_scale = false;
  delete_workload = false;
}

-- The replicas that a downscale starts from: the snapshot's, or the live ones.
abbrev pub baseline : DecisionInput → ℤ
baseline input = elim input.snapshot_replicas [ none ↦ input.current_replicas | some n ↦ n ]

unfoldable pub down_decision : DecisionInput → ℤ → String → Decision
down_decision input target reason =
    let desired = min_ℤ target (baseline input) in
    record {
      desired_replicas = desired;
      reason = reason;
      needs_snapshot = elim input.snapshot_replicas [ none ↦ true | some n ↦ false ];
      should_scale = not (desired ==ℤ input.current_replicas);
      clear_snapshot_after_scale = false;
      delete_workload = false;
    }

abbrev skip_reason : DecisionInput → String
skip_reason input =
    if input.scale_down_skip_reason == ""
    then reason_scale_down_skipped
    else input.scale_down_skip_reason

abbrev window_reason : DecisionInput → String
window_reason input =
    if input.scheduled_window_name == ""
    then reason_scale_down_window
    else reason_scale_down_window <> (":" <> input.scheduled_window_name)

abbrev deletion : DecisionInput → Decision
deletion input = record {
  desired_replicas = input.current_replicas;
  reason = reason_revision_expired_deleted;
  needs_snapshot = false;
  should_scale = false;
  clear_snapshot_after_scale = false;
  delete_workload = true;
}

-- The last two cases: outside every window, and not expired.
abbrev awake_decision : DecisionInput → Decision
awake_decision input = elim input.snapshot_replicas [
  | none ↦ keep_replicas input reason_active_window
  | some desired ↦ record {
    desired_replicas = desired;
    reason = reason_restore_replicas;
    needs_snapshot = false;
    should_scale = not (desired ==ℤ input.current_replicas);
    clear_snapshot_after_scale = true;
    delete_workload = false;
  }
]

unfoldable pub decide : DecisionInput → Decision
unfolding down_decision
decide input =
    if is_expired input
    then if input.expired_action == "delete"
      then deletion input
      else down_decision input input.expired_target reason_revision_expired
    else if input.scale_down_skipped && input.scheduled_down
    then keep_replicas input (skip_reason input)
    else if input.scheduled_down
    then down_decision input input.scheduled_target (window_reason input)
    else awake_decision input
