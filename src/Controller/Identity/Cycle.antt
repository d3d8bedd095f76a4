-- ===== src/Controller/Identity/Cycle.antt =====
-- The identity of a workload, and what a state remembers of the window that it is in.
use kube_workload_lm.Base.{
  String, ◌==◌, eq_iff, ==_of_eq, ==_of_ne, sym, true, false, not, none, ◌≡◌, ◌≢◌, ◌↔◌, refl, arith,
  if◌then◌else◌,
}
use kube_workload_lm.Base.Time.{Time}
use kube_workload_lm.Workload.{Workload}
use kube_workload_lm.Lifecycle.Revision.{Revision}
use kube_workload_lm.State.Types.{WorkloadState}
use kube_workload_lm.Controller.Identity.{
  same_uid, reconcile_identity, reconcile_window_cycle, record_entry, enter_cycle, is_redeployed,
}

module _ (previous : WorkloadState) (current : Workload) (policy_name : String)
    (revision : Revision) (now : Time) where
  -- The identity is kept exactly if a state with a UID was there, and the UID, the tracking hash
  -- and the revision hash are all the same; then the age goes on, and otherwise it starts anew.
  -- The snapshot outlives a new revision, but not a new UID, and the time last seen is the
  -- present one.
  pub reconcile_identity_age :
      let (next, changed) = reconcile_identity previous current policy_name revision now in
      ((changed ≡ false) ↔ (
        (previous.workload_uid ≢ "")
        × (previous.workload_uid ≡ current.uid)
        × (previous.tracking_spec_hash ≡ revision.tracking_spec_hash)
        × (previous.revision_hash ≡ revision.revision_hash)))
      × (next.first_seen_at ≡ (if changed then now else previous.first_seen_at))
      × (next.replica_snapshot
          ≡ (if same_uid previous current then previous.replica_snapshot else none))
      × (next.last_seen_at ≡ now)
  unfolding reconcile_identity
  reconcile_identity_age = (
    ground (
      arith,
      eq_iff previous.workload_uid "",
      eq_iff previous.workload_uid current.uid,
      eq_iff previous.tracking_spec_hash revision.tracking_spec_hash,
      eq_iff previous.revision_hash revision.revision_hash,
    ),
    ground arith,
    ground arith,
    ground arith,
  )

-- A state that is in the cycle, with its entry recorded, stays as it is.
enter_cycle_same :
    (s : WorkloadState) (id hash : String)
    → s.window_instance_id ≡ id
    → s.window_entry_revision ≢ ""
    → enter_cycle s id true hash ≡ s
unfolding reconcile_window_cycle record_entry
enter_cycle_same s id hash same recorded =
    rw (==_of_eq id s.window_instance_id (sym same), reconcile_window_cycle)
      (rw (==_of_ne s.window_entry_revision "" recorded, record_entry) (ground arith))

-- Entering a cycle other than the state's.
enter_cycle_other :
    (s : WorkloadState) (id hash : String)
    → id ≢ ""
    → id ≢ s.window_instance_id
    → enter_cycle s id true hash ≡ record s {
      window_entry_revision = hash;
      window_instance_id = id;
      scale_down_skipped = false;
      scale_down_skip_reason = "";
    }
unfolding reconcile_window_cycle record_entry
enter_cycle_other s id hash named other =
    rw (==_of_ne id s.window_instance_id other, reconcile_window_cycle)
      (rw (==_of_ne id "" named, record_entry) refl)

-- A state that enters a cycle of a window other than its own, the cycle's identifier and the
-- revision hash being non-empty, remembers the cycle and that revision: a later transition in
-- the same cycle, with whatever revision, changes nothing of that, and takes the workload for
-- redeployed exactly if its revision is not the one of the entry.
pub enter_cycle_remembers :
    (s : WorkloadState) (id hash later : String)
    → id ≢ ""
    → hash ≢ ""
    → id ≢ s.window_instance_id
    → let entered = enter_cycle s id true hash in
      (enter_cycle entered id true later ≡ entered)
      × (is_redeployed (enter_cycle entered id true later) true later ≡ not (hash == later))
unfolding is_redeployed
enter_cycle_remembers s id hash later named hashed other =
    rw (enter_cycle_other s id hash named other) (
      rw
        (enter_cycle_same
          (record s {
            window_entry_revision = hash;
            window_instance_id = id;
            scale_down_skipped = false;
            scale_down_skip_reason = "";
          })
          id later refl hashed)
        (refl, rw (==_of_ne hash "" hashed) refl))

-- Entering a cycle other than the state's own, with a non-empty identifier, forgets the
-- exemption but not the snapshot, and nothing counts as redeployed at that moment.
enter_cycle_resets :
    (s : WorkloadState) (id hash : String)
    → id ≢ ""
    → id ≢ s.window_instance_id
    → let entered = enter_cycle s id true hash in
      (entered.scale_down_skipped ≡ false)
      × (entered.replica_snapshot ≡ s.replica_snapshot)
      × (is_redeployed entered true hash ≡ false)
unfolding is_redeployed
enter_cycle_resets s id hash named other =
    rw (enter_cycle_other s id hash named other) (refl, refl, ground (arith, eq_iff hash hash))
