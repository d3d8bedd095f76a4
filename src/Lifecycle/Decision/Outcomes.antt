-- ===== src/Lifecycle/Decision/Outcomes.antt =====
-- What `Decide` decides: when it deletes, how far it scales, and that carrying a decision out settles
-- the workload.
use kube_workload_lm.Base.{
  ◌==◌, eq_iff, Bool, true, false, ◌&&◌, ◌||◌, not, none, some, ◌≡◌, ◌↔◌, arith, is_set,
  if◌then◌else◌,
}
use kube_workload_lm.Base.Int.{ℤ}
use kube_workload_lm.Base.Time.{Time}
use kube_workload_lm.Lifecycle.Decision.{DecisionInput, decide, is_expired}

-- A scale write without a new snapshot is decided only where a snapshot exists.
pub decide_has_snapshot :
    (i : DecisionInput)
    → (decide i).delete_workload ≡ false
    → (decide i).needs_snapshot ≡ false
    → (decide i).should_scale || (decide i).clear_snapshot_after_scale ≡ true
    → is_set i.snapshot_replicas ≡ true
unfolding decide
decide_has_snapshot i d n h = ground arith

-- The workload is deleted exactly when its revision has expired and the policy says so; then neither
-- a snapshot, nor a scale write, nor a restore is decided.
pub decide_deletes :
    (i : DecisionInput)
    → (((decide i).delete_workload ≡ true)
        ↔ ((is_expired i ≡ true) × (i.expired_action ≡ "delete")))
      × (((decide i).delete_workload
            && ((decide i).needs_snapshot
                || (decide i).should_scale
                || (decide i).clear_snapshot_after_scale))
          ≡ false)
unfolding decide
decide_deletes i = (
  ground (arith, eq_iff i.expired_action "delete"),
  ground (arith, eq_iff i.expired_action "delete"),
)

-- The cases in which a workload is to be scaled down, and to what.
abbrev pub is_down : DecisionInput → Bool
is_down i =
    if is_expired i
    then not (i.expired_action == "delete")
    else i.scheduled_down && not i.scale_down_skipped

abbrev pub down_target : DecisionInput → ℤ
down_target i = if is_expired i then i.expired_target else i.scheduled_target

-- The input of the next transition, if the decision was carried out and nothing else happened.
abbrev pub carried_out : DecisionInput → DecisionInput
carried_out i =
    let d = decide i in
    record i {
      current_replicas = d.desired_replicas;
      snapshot_replicas =
          if d.clear_snapshot_after_scale
          then none
          else if d.needs_snapshot
          then some i.current_replicas
          else i.snapshot_replicas;
    }

-- A decision that does not delete settles the workload once it was carried out: the next
-- decision, if nothing else happened, writes no scale, takes no snapshot and wants the same
-- replicas.
pub decide_settles :
    (i : DecisionInput)
    → (decide i).delete_workload ≡ false
    → let next = decide (carried_out i) in
      (next.should_scale ≡ false)
      × (next.needs_snapshot ≡ false)
      × (next.desired_replicas ≡ (decide i).desired_replicas)
unfolding decide
decide_settles i h = ground arith

-- The input of a transition outside every window, after the decision was carried out.
abbrev pub after_window : DecisionInput → Time → DecisionInput
after_window i now = record (carried_out i) { now = now; scheduled_down = false }

-- A workload that was scaled down with no snapshot before, its decision being carried out, is
-- restored once it is neither in a window nor expired: to exactly the replicas that it had, with
-- its snapshot to be cleared.
pub decide_restores :
    (i : DecisionInput) (now : Time)
    → is_down i ≡ true
    → i.snapshot_replicas ≡ none
    → is_expired (after_window i now) ≡ false
    → ((decide (after_window i now)).desired_replicas ≡ i.current_replicas)
      × ((decide (after_window i now)).clear_snapshot_after_scale ≡ true)
unfolding decide
decide_restores i now h none_before fresh = ground arith
