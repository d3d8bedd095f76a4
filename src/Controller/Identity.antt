-- ===== src/Controller/Identity.antt =====
-- internal/controller/transition.go: the parts of a transition that only compute the next state of the
-- workload (reconcileIdentity, reconcileWindowCycle, and the entry record of a window).
pub mod Cycle
use kube_workload_lm.Base.{
  String, ◌==◌, Bool, false, ◌&&◌, ◌||◌, not, Option, none, some, if◌then◌else◌, Result, ok, is_set,
}
use kube_workload_lm.Base.Int.{ℤ, ltb_ℤ}
use kube_workload_lm.Base.Time.{Time}
use kube_workload_lm.Workload.{Workload}
use kube_workload_lm.Lifecycle.Revision.{Revision, source_container_images}
use kube_workload_lm.Schedule.Calendar.{Zones}
use kube_workload_lm.Schedule.Window.{ScheduleError, match_windows}
use kube_workload_lm.Schedule.Instance.{window_instance_id}
use kube_workload_lm.Policy.Types.{Schedule}
use kube_workload_lm.State.Types.{WorkloadState}

abbrev pub same_uid : WorkloadState → Workload → Bool
same_uid previous current =
    not (previous.workload_uid == "") && previous.workload_uid == current.uid

abbrev pub same_identity : WorkloadState → Workload → Revision → Bool
same_identity previous current revision =
    same_uid previous current
    && previous.tracking_spec_hash == revision.tracking_spec_hash
    && previous.revision_hash == revision.revision_hash

-- The state under a new UID: nothing of the previous workload's window or snapshot is kept.
abbrev fresh_state : Workload → String → Revision → Time → Time → WorkloadState
fresh_state current policy_name revision first_seen now = record {
  kind = current.kind;
  namespace = current.namespace;
  name = current.name;
  workload_uid = current.uid;
  last_policy_name = policy_name;
  tracking_spec_hash = revision.tracking_spec_hash;
  revision_hash = revision.revision_hash;
  revision = record { source = source_container_images; containers = revision.containers };
  first_seen_at = first_seen;
  last_seen_at = now;
  replica_snapshot = none;
  window_entry_revision = "";
  window_instance_id = "";
  scale_down_skipped = false;
  scale_down_skip_reason = "";
}

-- What is preserved under the same UID.
abbrev carry_over : WorkloadState → WorkloadState → WorkloadState
carry_over previous next = record next {
  replica_snapshot = previous.replica_snapshot;
  window_entry_revision = previous.window_entry_revision;
  window_instance_id = previous.window_instance_id;
  scale_down_skipped = previous.scale_down_skipped;
  scale_down_skip_reason = previous.scale_down_skip_reason;
}

-- `reconcileIdentity`: the next state, and whether the identity changed.
unfoldable pub reconcile_identity :
    WorkloadState → Workload → String → Revision → Time → WorkloadState × Bool
reconcile_identity previous current policy_name revision now =
    let same = same_identity previous current revision in
    let first_seen = if same then previous.first_seen_at else now in
    let next = fresh_state current policy_name revision first_seen now in
    (if same_uid previous current then carry_over previous next else next, not same)

-- `reconcileWindowCycle`
unfoldable pub reconcile_window_cycle : WorkloadState → String → Bool → WorkloadState
reconcile_window_cycle current id scheduled_down =
    if not scheduled_down || not (id == current.window_instance_id)
    then record current {
      window_entry_revision = "";
      window_instance_id = "";
      scale_down_skipped = false;
      scale_down_skip_reason = "";
    }
    else current

-- A state in a window always has the revision of its entry.
unfoldable pub record_entry : WorkloadState → String → Bool → String → WorkloadState
record_entry current id scheduled_down revision_hash =
    if scheduled_down && not (id == "") && current.window_entry_revision == ""
    then record current { window_entry_revision = revision_hash; window_instance_id = id }
    else current

-- The test for a new revision within the window.
unfoldable pub is_redeployed : WorkloadState → Bool → String → Bool
is_redeployed current scheduled_down revision_hash =
    scheduled_down
    && not current.scale_down_skipped
    && not (current.window_entry_revision == "")
    && not (current.window_entry_revision == revision_hash)

-- The state in the window's cycle, before the revision is compared.
abbrev pub enter_cycle : WorkloadState → String → Bool → String → WorkloadState
enter_cycle current id scheduled_down revision_hash =
    record_entry (reconcile_window_cycle current id scheduled_down) id scheduled_down revision_hash

-- More live replicas than the target, although a snapshot says that they were scaled down.
abbrev pub is_overridden : Bool → WorkloadState → ℤ → ℤ → Bool
is_overridden scheduled_down current live target =
    scheduled_down
    && not current.scale_down_skipped
    && is_set current.replica_snapshot
    && ltb_ℤ target live

module _ (Z : Zones) where
  -- `matchSchedule`; `none` is `("", false)`.
  unfoldable pub match_schedule : Time → Option Schedule → Result ScheduleError (Option String)
  match_schedule now none = ok none
  match_schedule now (some configured) =
      match_windows Z now configured.time_zone configured.down_windows

  -- `computeWindowInstanceID`
  unfoldable pub compute_instance_id : Time → Option Schedule → String → Result ScheduleError String
  compute_instance_id now none name = ok ""
  compute_instance_id now (some configured) name =
      window_instance_id Z now configured.time_zone name configured.down_windows
