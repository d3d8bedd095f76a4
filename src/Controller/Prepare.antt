-- ===== src/Controller/Prepare.antt =====
-- internal/controller/transition.go: `Reconcile` up to the decision.
use kube_workload_lm.Base.{
  String, ◌==◌, Bool, true, false, ◌&&◌, not, Option, none, some, Result, is_set,
}
use kube_workload_lm.Base.Int.{ℤ}
use kube_workload_lm.Base.Time.{Time}
use kube_workload_lm.Base.Dict.{lookup, insert}
use kube_workload_lm.Workload.{Workload, key}
use kube_workload_lm.Lifecycle.Decision.{
  Decision, DecisionInput, decide, reason_scale_down_skipped,
  reason_scale_down_skipped_replica_override,
}
use kube_workload_lm.Lifecycle.Revision.{Revision, Hasher, calculate_revision}
use kube_workload_lm.Schedule.Calendar.{Zones}
use kube_workload_lm.Schedule.Window.{ScheduleError}
use kube_workload_lm.Policy.Types.{Matchers, Policy}
use kube_workload_lm.State.Types.{ReplicaSnapshot, WorkloadState, States}
use kube_workload_lm.Controller.Effects.{
  Collaborators, Action, revision_failed, schedule_failed, window_id_failed, redeploy_failed,
  nil_map, persist_baseline, mark_override, mark_skipped, pure, raise, map_error, lift, ◌>>=◌, ◌>>◌,
  load_document, read_scale, update_scale, read_clock, admit,
}
use kube_workload_lm.Controller.Identity.{
  reconcile_identity, reconcile_window_cycle, record_entry, enter_cycle, is_redeployed,
  is_overridden, match_schedule, compute_instance_id,
}
use kube_workload_lm.Controller.Draft.{
  Draft, Prepared, put, name_of, snapshot_count, mark, previous_state, when, save,
}

module _ (C : Collaborators) where
  -- A write to a nil map panics.
  unfoldable pub present : ℤ → Option States → Action C (ℤ × States)
  present version none = raise nil_map
  present version (some states) = pure (version, states)

  unfoldable pub restore_snapshot : Workload → Option ReplicaSnapshot → Action C (Unit {0})
  restore_snapshot live none = pure tt
  restore_snapshot live (some s) = update_scale C live s.replicas reason_scale_down_skipped

  -- `handleRedeployDuringWindow`
  unfoldable pub handle_redeploy : String → Workload → Draft → Action C Draft
  unfolding restore_snapshot save
  handle_redeploy k live d = do
    restore_snapshot live d.current.replica_snapshot
    let marked = mark reason_scale_down_skipped k d
    save C mark_skipped marked
    pure marked

  unfoldable pub redeploy_step : Bool → String → Workload → Draft → Action C Draft
  unfolding handle_redeploy
  redeploy_step true k live d = map_error redeploy_failed (handle_redeploy k live d)
  redeploy_step false k live d = pure d

  unfoldable pub accept_override : String → Draft → Action C Draft
  unfolding save
  accept_override k d = do
    let marked = mark reason_scale_down_skipped_replica_override k d
    save C mark_override marked
    pure marked

  unfoldable pub override_step : Bool → String → Draft → Action C Draft
  unfolding accept_override
  override_step true k d = accept_override k d
  override_step false k d = pure d

module _ {M : Matchers} where
  abbrev pub input_of : Policy M → WorkloadState → Workload → Option String → Time → DecisionInput
  input_of selected current live window now = record {
    now = now;
    first_seen_at = current.first_seen_at;
    max_age = selected.lifecycle.max_age;
    current_replicas = live.current_replicas;
    snapshot_replicas = snapshot_count current.replica_snapshot;
    scheduled_down = is_set window;
    scheduled_window_name = name_of window;
    scheduled_target = selected.replicas.scheduled_down;
    expired_target = selected.replicas.expired;
    scale_down_skipped = current.scale_down_skipped;
    scale_down_skip_reason = current.scale_down_skip_reason;
    expired_action = selected.lifecycle.expired_action;
  }

module _ {M : Matchers} where
  -- The document with the workload's identity brought up to date, and whether it changed.
  unfoldable pub identity_draft : Workload → Policy M → Revision → Time → ℤ × States → Draft × Bool
  unfolding reconcile_identity
  identity_draft current selected revision now (version, states) =
      let previous = previous_state (lookup (key current) states) in
      let (next, changed) = reconcile_identity previous current selected.name revision now in
      (
        record { version = version; states = insert (key current) next states; current = next },
        changed,
      )

module _ (C : Collaborators) where
  unfoldable pub persist_identity : Draft × Bool → Action C (Draft × Bool)
  unfolding save
  persist_identity (draft, changed) = do
    when C changed (save C persist_baseline draft)
    pure (draft, changed)

  unfoldable pub id_if : Bool → Result ScheduleError String → Action C String
  id_if true r = lift window_id_failed r
  id_if false r = pure ""

module _ (C : Collaborators) {M : Matchers} where
  -- The identity of the workload, persisted if it changed.
  unfoldable pub identify : Workload → Policy M → Revision → Time → Action C (Draft × Bool)
  unfolding present identity_draft persist_identity
  identify current selected revision now = do
    document ← load_document C
    loaded ← present C document.format_version document.states
    persist_identity C (identity_draft current selected revision now loaded)

  -- The steps that may mark the workload as exempt, and the decision.
  unfoldable pub conclude_window :
      Workload
      → Policy M
      → Revision
      → Time
      → Workload
      → Option String
      → Draft
      → Action C (Workload × Draft × Decision)
  unfolding redeploy_step override_step decide is_redeployed
  conclude_window current selected revision now live window d₁ = do
    d₂ ←
        redeploy_step C (is_redeployed d₁.current (is_set window) revision.revision_hash)
          (key current) live d₁
    d₃ ←
        override_step C
          (is_overridden (is_set window) d₂.current live.current_replicas
            selected.replicas.scheduled_down)
          (key current) d₂
    pure (live, d₃, decide (input_of selected d₃.current live window now))

module _ (C : Collaborators) (Z : Zones) {M : Matchers} where
  -- From the live replicas to the decision.
  unfoldable pub settle :
      Workload → Policy M → Revision → Time → Draft → Action C (Workload × Draft × Decision)
  unfolding id_if conclude_window match_schedule compute_instance_id reconcile_window_cycle
      record_entry
  settle current selected revision now draft = do
    live ← read_scale C current
    window ← lift schedule_failed (match_schedule Z now selected.schedule)
    id ←
        id_if C (is_set window && not (name_of window == ""))
          (compute_instance_id Z now selected.schedule (name_of window))
    conclude_window C current selected revision now live window (
        put (key current) (enter_cycle draft.current id (is_set window) revision.revision_hash)
          draft)

module _ (C : Collaborators) (H : Hasher) (Z : Zones) {M : Matchers} where
  unfoldable pub prepare : Workload → Policy M → Action C Prepared
  unfolding identify settle calculate_revision
  prepare current selected = do
    admit C current
    revision ←
        lift revision_failed (calculate_revision H current.containers selected.lifecycle.revision)
    now ← read_clock C
    (draft, changed) ← identify C current selected revision now
    (live, settled, decision) ← settle C Z current selected revision now draft
    pure (record {
      live = live;
      draft = settled;
      decision = decision;
      identity_changed = changed;
      now = now;
    })
