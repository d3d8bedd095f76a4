-- ===== src/Controller/Durable/Steps.antt =====
-- The steps of a transition up to its decision write scale only under a durable snapshot.
use kube_workload_lm.Base.{
  String, Bool, true, false, ◌||◌, Option, none, some, List, Result, ◌≡◌, refl, sym, ap, ◌∙◌,
  is_set,
}
use kube_workload_lm.Base.Int.{ℤ}
use kube_workload_lm.Base.Time.{Time}
use kube_workload_lm.Workload.{Workload, key}
use kube_workload_lm.Lifecycle.Decision.{
  Decision, reason_scale_down_skipped, reason_scale_down_skipped_replica_override,
}
use kube_workload_lm.Lifecycle.Decision.Outcomes.{decide_has_snapshot}
use kube_workload_lm.Lifecycle.Revision.{Hasher, Revision}
use kube_workload_lm.Schedule.Calendar.{Zones}
use kube_workload_lm.Schedule.Window.{ScheduleError}
use kube_workload_lm.Policy.Types.{Matchers, Policy}
use kube_workload_lm.State.Types.{ReplicaSnapshot}
use kube_workload_lm.Controller.Effects.{
  Collaborators, Call, update_scale, mark_skipped, mark_override, window_id_failed, schedule_failed,
  revision_failed, redeploy_failed,
}
use kube_workload_lm.Controller.Effects.Rules.{
  Triple, Triple-pure, Triple-lift, Triple-bind, Triple-read_scale, Triple-update_scale,
  Triple-read_clock, Triple-admit, Triple-weaken, Triple-given, Triple-map_error,
}
use kube_workload_lm.Controller.Draft.{Draft, mark, snapshot_count}
use kube_workload_lm.Controller.Prepare.{
  restore_snapshot, handle_redeploy, redeploy_step, override_step, id_if, conclude_window, settle,
  prepare, input_of,
}
use kube_workload_lm.Controller.Durable.{
  has_durable_snapshot, IsGuarded, Tracks, lookup_own, save-Tracks, identify-Tracks, ReadsCopy,
  enter_cycle-snapshot,
}

-- What the decision may rely on.
abbrev pub Ready : String → Workload × Draft × Decision → List Call → Type 0
Ready k (w, d, decision) l =
    IsGuarded l
    × (key w ≡ k)
    × (decision.delete_workload ≡ false
        → decision.needs_snapshot ≡ false
        → decision.should_scale || decision.clear_snapshot_after_scale ≡ true
        → has_durable_snapshot k l ≡ true)

module _ (C : Collaborators) (k : String) (live : Workload) (same : key live ≡ k) where
  -- A scale write that a snapshot allows.
  pub scale-IsGuarded :
      {P : List Call → Type 0} (n : ℤ) (reason : String)
      → ((l : List Call) → P l → IsGuarded l × (has_durable_snapshot k l ≡ true))
      → Triple P (update_scale C live n reason) (λ _. IsGuarded) IsGuarded
  scale-IsGuarded n reason h =
      Triple-update_scale C live n reason (λ l p. (rw same ((h l p).1), (h l p).0))
        (λ l p. (rw same ((h l p).1), (h l p).0))

  restore_snapshot-IsGuarded :
      (o : Option ReplicaSnapshot)
      → Triple
          (λ l. IsGuarded l × (is_set o ≡ true → has_durable_snapshot k l ≡ true))
          (restore_snapshot C live o)
          (λ _. IsGuarded)
          IsGuarded
  unfolding restore_snapshot
  restore_snapshot-IsGuarded none = Triple-pure tt λ l h. h.0
  restore_snapshot-IsGuarded (some s) = scale-IsGuarded s.replicas _ λ l h. (h.0, h.1 refl)

  redeploy_step-Tracks :
      (b : Bool) (d : Draft)
      → Triple (Tracks k d) (redeploy_step C b k live d) (λ d'. λ l. Tracks k d' l) IsGuarded
  unfolding redeploy_step handle_redeploy
  redeploy_step-Tracks true d = Triple-map_error redeploy_failed _ (
      Triple-bind _ _ (restore_snapshot-IsGuarded d.current.replica_snapshot) λ _.
        Triple-bind _ _
          (save-Tracks C k mark_skipped (mark reason_scale_down_skipped k d)
            (lookup_own k _ d.states) (λ l h. h))
          λ _. Triple-pure _ λ l h. h)
  redeploy_step-Tracks false d = Triple-pure d λ l h. h

  override_step-Tracks :
      (b : Bool) (d : Draft)
      → Triple (Tracks k d) (override_step C b k d) (λ d'. λ l. Tracks k d' l) IsGuarded
  unfolding override_step
  override_step-Tracks true d =
      Triple-bind _ _
        (save-Tracks C k mark_override (mark reason_scale_down_skipped_replica_override k d)
          (lookup_own k _ d.states) (λ l h. h.0))
        λ _. Triple-pure _ λ l h. h
  override_step-Tracks false d = Triple-pure d λ l h. h

id_if-Tracks :
    (C : Collaborators) (k : String) (d : Draft) (b : Bool) (r : Result ScheduleError String)
    → Triple (Tracks k d) (id_if C b r) (λ _. Tracks k d) IsGuarded
unfolding id_if
id_if-Tracks C k d true r = Triple-lift window_id_failed r (λ a e l h. h) (λ l h. h.0)
id_if-Tracks C k d false r = Triple-pure "" λ l h. h

module _ (C : Collaborators) (R : ReadsCopy C) (Z : Zones) {M : Matchers} (current : Workload)
    (selected : Policy M) where
  snapshot_count-is_set : (o : Option ReplicaSnapshot) → is_set (snapshot_count o) ≡ is_set o
  snapshot_count-is_set none = refl
  snapshot_count-is_set (some s) = refl

  conclude_window-Ready :
      (revision : Revision) (now : Time) (live : Workload) (same : key live ≡ key current)
      (window : Option String) (d : Draft)
      → Triple
          (Tracks (key current) d)
          (conclude_window C current selected revision now live window d)
          (Ready (key current))
          IsGuarded
  unfolding conclude_window
  conclude_window-Ready revision now live same window d =
      Triple-bind _ _ (redeploy_step-Tracks C (key current) live same _ d) λ d₂.
        Triple-bind _ _ (override_step-Tracks C (key current) live same _ d₂) λ d₃.
          Triple-pure _ λ l h. (
            h.0,
            same,
            λ del needs wanted. h.1 (
                sym (snapshot_count-is_set d₃.current.replica_snapshot)
                ∙ decide_has_snapshot (input_of selected d₃.current live window now) del needs
                    wanted),
          )

  settle-Ready :
      (revision : Revision) (now : Time) (d : Draft)
      → Triple
          (Tracks (key current) d)
          (settle C Z current selected revision now d)
          (Ready (key current))
          IsGuarded
  unfolding settle
  settle-Ready revision now d =
      Triple-bind _ _
        (Triple-read_scale C {Q = λ live l. (key live ≡ key current) × Tracks (key current) d l}
          current (λ live w e l h. (R.same_key current live w e, ((tt, h.0), h.1)))
          (λ l h. (tt, h.0)))
        λ live. Triple-given _ λ same.
          Triple-bind _ _
            (Triple-lift {Q = λ _. Tracks (key current) d} schedule_failed _ (λ a e l h. h)
              (λ l h. h.0))
            λ window. Triple-bind _ _ (id_if-Tracks C (key current) d _ _) λ id.
              Triple-weaken _
                (λ l h.
                  (h.0, λ e. h.1 (sym (ap is_set (enter_cycle-snapshot d.current id _ _)) ∙ e)))
                (conclude_window-Ready revision now live same window _)

  pub prepare-Ready :
      (H : Hasher)
      → Triple IsGuarded
          (prepare C H Z current selected)
          (λ p. Ready (key current) (p.live, p.draft, p.decision))
          IsGuarded
  unfolding prepare
  prepare-Ready H = Triple-bind _ _ (Triple-admit C current (λ l h. h)) λ _.
      Triple-bind _ _ (Triple-lift {Q = λ _. IsGuarded} revision_failed _ (λ a e l h. h) (λ l h. h))
        λ revision. Triple-bind _ _ (Triple-read_clock C) λ now.
          Triple-bind _ _ (identify-Tracks current selected revision now C) λ (d, changed).
            Triple-given _
              λ own. Triple-bind _ _ (settle-Ready revision now d) λ r. Triple-pure _ λ l h. h
