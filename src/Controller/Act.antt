-- ===== src/Controller/Act.antt =====
-- internal/controller/transition.go: the deletion in `Reconcile`, and `applyDecision`.
use kube_workload_lm.Base.{Option}
use kube_workload_lm.Base.{String, Bool, ◌&&◌, not, none, some, if◌then◌else◌}
use kube_workload_lm.Base.Time.{Time}
use kube_workload_lm.Base.Dict.{remove}
use kube_workload_lm.Workload.{Workload, key}
use kube_workload_lm.Lifecycle.Decision.{Decision}
use kube_workload_lm.State.Types.{ReplicaSnapshot}
use kube_workload_lm.Controller.Effects.{
  Collaborators, Action, clean_failed, persist_snapshot, clear_snapshot, update_state, ◌>>◌,
  save_document, update_scale, delete_workload,
}
use kube_workload_lm.Controller.Draft.{Draft, Prepared, document_of, put, when, save}

-- `current.ReplicaSnapshot = …; document.States[key] = current`
abbrev pub with_snapshot : Option ReplicaSnapshot → String → Draft → Draft
with_snapshot o k d = put k (record (d.current) { replica_snapshot = o }) d

abbrev pub snapshot_of : Workload → Decision → Time → ReplicaSnapshot
snapshot_of live decision now = record {
  replicas = live.current_replicas;
  captured_at = now;
  captured_reason = decision.reason;
}

module _ (C : Collaborators) where
  -- The deletion branch of `Reconcile`.
  unfoldable pub delete_expired : String → Workload → Draft → Action C (Unit {0})
  delete_expired k live d = do
    delete_workload C live
    save_document C clean_failed (document_of (record d { states = remove k d.states }))

  abbrev pub scale_if : Bool → Workload → Decision → Action C (Unit {0})
  scale_if wanted live decision =
      when C wanted (update_scale C live decision.desired_replicas decision.reason)

  -- The first branch of `applyDecision`: the snapshot is durable before the scale is written.
  unfoldable pub take_snapshot : Workload → Decision → Draft → Time → Action C (Unit {0})
  unfolding save
  take_snapshot live decision d now = do
    save C persist_snapshot (with_snapshot (some (snapshot_of live decision now)) (key live) d)
    scale_if decision.should_scale live decision

  -- The second branch: the snapshot is cleared after the scale is written.
  unfoldable pub restore : Workload → Decision → Draft → Action C (Unit {0})
  unfolding save
  restore live decision d = do
    update_scale C live decision.desired_replicas decision.reason
    save C clear_snapshot (with_snapshot none (key live) d)

  -- The rest: nothing is saved again if a new identity was saved and nothing was scaled.
  unfoldable pub refresh : Workload → Decision → Draft → Bool → Action C (Unit {0})
  unfolding save
  refresh live decision d identity_saved = do
    scale_if decision.should_scale live decision
    when C (not (identity_saved && not decision.should_scale))
        (save C update_state (put (key live) d.current d))

  -- `applyDecision`
  unfoldable pub apply_decision : Workload → Decision → Draft → Bool → Time → Action C (Unit {0})
  unfolding take_snapshot restore refresh
  apply_decision live decision d identity_saved now =
      if decision.needs_snapshot
      then take_snapshot live decision d now
      else if decision.clear_snapshot_after_scale
      then restore live decision d
      else refresh live decision d identity_saved

  unfoldable pub act : String → Prepared → Action C (Unit {0})
  unfolding delete_expired apply_decision
  act k p =
      if p.decision.delete_workload
      then delete_expired k p.live p.draft
      else apply_decision p.live p.decision p.draft p.identity_changed p.now
