-- ===== src/Controller/Walk.antt =====
-- Invariants of the log: what every call but a deletion keeps, a whole transition keeps up to the
-- decision and, unless it deletes, to its end.
use kube_workload_lm.Base.{
  String, Bool, true, false, Option, none, some, List, ◌∷◌, Result, ◌≡◌, refl,
}
use kube_workload_lm.Base.Int.{ℤ}
use kube_workload_lm.Workload.{Workload, key}
use kube_workload_lm.Lifecycle.Decision.{
  Decision, DecisionInput, decide, reason_scale_down_skipped,
  reason_scale_down_skipped_replica_override,
}
use kube_workload_lm.Lifecycle.Revision.{Hasher, Revision}
use kube_workload_lm.Schedule.Calendar.{Zones}
use kube_workload_lm.Schedule.Window.{ScheduleError}
use kube_workload_lm.Policy.Types.{Matchers, Policy}
use kube_workload_lm.State.Types.{ReplicaSnapshot, States}
use kube_workload_lm.Base.Time.{Time}
use kube_workload_lm.Controller.Effects.{
  Collaborators, Call, loaded, load_refused, saved, scale_read, scaled, deleted, TransitionError,
  Action, Operation, pure, raise, lift, redeploy_failed, update_scale, nil_map, mark_skipped,
  mark_override, persist_baseline, window_id_failed, schedule_failed, revision_failed,
  persist_snapshot, clear_snapshot, update_state,
}
use kube_workload_lm.Controller.Effects.Rules.{
  Triple, Triple-pure, Triple-raise, Triple-lift, Triple-bind, Triple-save_document,
  Triple-load_document, Triple-read_scale, Triple-update_scale, Triple-read_clock, Triple-admit,
  Triple-if, Triple-map_error,
}
use kube_workload_lm.Controller.Draft.{Draft, Prepared, put, mark, when, save}
use kube_workload_lm.Controller.Prepare.{
  present, restore_snapshot, handle_redeploy, redeploy_step, override_step, persist_identity, id_if,
  identify, conclude_window, settle, prepare, input_of,
}
use kube_workload_lm.Controller.Act.{
  delete_expired, take_snapshot, restore, refresh, apply_decision, act, with_snapshot, snapshot_of,
}

abbrev pub succeeded : Call → Bool
succeeded (loaded d) = true
succeeded load_refused = false
succeeded (saved d b) = b
succeeded (scale_read b) = b
succeeded (scaled w n b) = b
succeeded (deleted w b) = b

abbrev pub is_deletion : Call → Bool
is_deletion (deleted w b) = true
is_deletion other = false

-- `I` holds of the log while no call has failed, and `E` once one has. A deletion is not covered.
pub record Closed (I E : List Call → Type 0) : Type 0 where
  pub stop : (l : List Call) → I l → E l
  pub good :
      (c : Call) → succeeded c ≡ true → is_deletion c ≡ false → (l : List Call) → I l → I (c ∷ l)
  pub bad :
      (c : Call) → succeeded c ≡ false → is_deletion c ≡ false → (l : List Call) → I l → E (c ∷ l)

abbrev pub Walks :
    {I E : List Call → Type 0} → Closed I E → (C : Collaborators) {A : Type 0} → Action C A → Type 0
Walks {I} {E} K C m = Triple I m (λ _. I) E

module _ {I E : List Call → Type 0} (K : Closed I E) {C : Collaborators} {A : Type 0} where
  Walks-pure : (a : A) → Walks K C (pure a)
  Walks-pure a = Triple-pure a λ l h. h

  Walks-raise : (e : TransitionError C.Failure) → Walks K C {A = A} (raise e)
  Walks-raise e = Triple-raise e K.stop

  Walks-lift :
      {F : Type 0} (f : F → TransitionError C.Failure) (r : Result F A) → Walks K C (lift f r)
  Walks-lift f r = Triple-lift f r (λ a e l h. h) K.stop

module _ {I E : List Call → Type 0} (K : Closed I E) (C : Collaborators) where
  Walks-save : (operation : Operation) (d : Draft) → Walks K C (save C operation d)
  unfolding save
  Walks-save operation d =
      Triple-save_document C _ _ (λ l h. K.good _ refl refl l h) (λ l h. K.bad _ refl refl l h)

  Walks-scale : (w : Workload) (n : ℤ) (reason : String) → Walks K C (update_scale C w n reason)
  Walks-scale w n reason =
      Triple-update_scale C w n reason (λ l h. K.good _ refl refl l h)
        (λ l h. K.bad _ refl refl l h)

  Walks-when : (b : Bool) (m : Action C (Unit {0})) → Walks K C m → Walks K C (when C b m)
  Walks-when true m h = h
  Walks-when false m h = Walks-pure K tt

  Walks-present : (version : ℤ) (o : Option States) → Walks K C (present C version o)
  unfolding present
  Walks-present version none = Walks-raise K nil_map
  Walks-present version (some states) = Walks-pure K (version, states)

  Walks-restore_snapshot :
      (live : Workload) (o : Option ReplicaSnapshot) → Walks K C (restore_snapshot C live o)
  unfolding restore_snapshot
  Walks-restore_snapshot live none = Walks-pure K tt
  Walks-restore_snapshot live (some s) = Walks-scale live s.replicas _

  Walks-handle_redeploy :
      (k : String) (live : Workload) (d : Draft) → Walks K C (handle_redeploy C k live d)
  unfolding handle_redeploy
  Walks-handle_redeploy k live d = Triple-bind _ _ (Walks-restore_snapshot live _) λ _.
      Triple-bind _ _ (Walks-save mark_skipped (mark reason_scale_down_skipped k d))
        λ _. Walks-pure K _

  Walks-redeploy_step :
      (b : Bool) (k : String) (live : Workload) (d : Draft) → Walks K C (redeploy_step C b k live d)
  unfolding redeploy_step
  Walks-redeploy_step true k live d =
      Triple-map_error redeploy_failed _ (Walks-handle_redeploy k live d)
  Walks-redeploy_step false k live d = Walks-pure K d

  Walks-override_step : (b : Bool) (k : String) (d : Draft) → Walks K C (override_step C b k d)
  unfolding override_step
  Walks-override_step true k d =
      Triple-bind _ _
        (Walks-save mark_override (mark reason_scale_down_skipped_replica_override k d))
        λ _. Walks-pure K _
  Walks-override_step false k d = Walks-pure K d

  Walks-persist_identity : (d : Draft × Bool) → Walks K C (persist_identity C d)
  unfolding persist_identity
  Walks-persist_identity (draft, changed) =
      Triple-bind _ _ (Walks-when changed _ (Walks-save persist_baseline draft))
        λ _. Walks-pure K (draft, changed)

  Walks-id_if : (b : Bool) (r : Result ScheduleError String) → Walks K C (id_if C b r)
  unfolding id_if
  Walks-id_if true r = Walks-lift K window_id_failed r
  Walks-id_if false r = Walks-pure K ""

module _ {I E : List Call → Type 0} (K : Closed I E) (C : Collaborators) (H : Hasher) (Z : Zones)
    {M : Matchers} (selected : Policy M) where
  Walks-identify :
      (current : Workload) (revision : Revision) (now : Time)
      → Walks K C (identify C current selected revision now)
  unfolding identify
  Walks-identify current revision now =
      Triple-bind _ _
        (Triple-load_document C (λ d l h. K.good _ refl refl l h) (λ l h. K.bad _ refl refl l h))
        λ document.
          Triple-bind _ _ (Walks-present K C document.format_version document.states)
            λ r. Walks-persist_identity K C _

  -- The decision was made by `decide`, on the action of the policy.
  abbrev pub IsDecided : Decision → Type 0
  IsDecided decision =
      (i : DecisionInput) × (decision ≡ decide i)
      × (i.expired_action ≡ selected.lifecycle.expired_action)

  Walks-conclude_window :
      (current : Workload) (revision : Revision) (now : Time) (live : Workload)
      (window : Option String) (d : Draft)
      → Triple I
          (conclude_window C current selected revision now live window d)
          (λ r. λ l. IsDecided r.2 × I l)
          E
  unfolding conclude_window
  Walks-conclude_window current revision now live window d =
      Triple-bind _ _ (Walks-redeploy_step K C _ (key current) live d) λ d₂.
        Triple-bind _ _ (Walks-override_step K C _ (key current) d₂)
          λ d₃. Triple-pure _ λ l h. ((input_of selected d₃.current live window now, refl, refl), h)

  Walks-settle :
      (current : Workload) (revision : Revision) (now : Time) (d : Draft)
      → Triple I (settle C Z current selected revision now d) (λ r. λ l. IsDecided r.2 × I l) E
  unfolding settle
  Walks-settle current revision now d =
      Triple-bind _ _
        (Triple-read_scale C current (λ live w e l h. K.good _ refl refl l h)
          (λ l h. K.bad _ refl refl l h))
        λ live. Triple-bind _ _ (Walks-lift K schedule_failed _) λ window.
          Triple-bind _ _ (Walks-id_if K C _ _)
            λ id. Walks-conclude_window current revision now live window _

  -- Up to the decision the invariant is kept.
  pub Walks-prepare :
      (current : Workload)
      → Triple I (prepare C H Z current selected) (λ p. λ l. IsDecided p.decision × I l) E
  unfolding prepare
  Walks-prepare current = Triple-bind _ _ (Triple-admit C current K.stop) λ _.
      Triple-bind _ _ (Walks-lift K revision_failed _) λ revision.
        Triple-bind _ _ (Triple-read_clock C) λ now.
          Triple-bind _ _ (Walks-identify current revision now) λ (d, changed).
            Triple-bind _ _ (Walks-settle current revision now d) λ r. Triple-pure _ λ l h. h

module _ {I E : List Call → Type 0} (K : Closed I E) (C : Collaborators) where
  Walks-take_snapshot :
      (live : Workload) (decision : Decision) (d : Draft) (now : Time)
      → Walks K C (take_snapshot C live decision d now)
  unfolding take_snapshot
  Walks-take_snapshot live decision d now =
      Triple-bind _ _
        (Walks-save K C persist_snapshot
          (with_snapshot (some (snapshot_of live decision now)) (key live) d))
        λ _. Walks-when K C decision.should_scale _ (Walks-scale K C live _ _)

  Walks-restore :
      (live : Workload) (decision : Decision) (d : Draft) → Walks K C (restore C live decision d)
  unfolding restore
  Walks-restore live decision d =
      Triple-bind _ _ (Walks-scale K C live _ _)
        λ _. Walks-save K C clear_snapshot (with_snapshot none (key live) d)

  Walks-refresh :
      (live : Workload) (decision : Decision) (d : Draft) (b : Bool)
      → Walks K C (refresh C live decision d b)
  unfolding refresh
  Walks-refresh live decision d b =
      Triple-bind _ _ (Walks-when K C decision.should_scale _ (Walks-scale K C live _ _))
        λ _. Walks-when K C _ _ (Walks-save K C update_state (put (key live) d.current d))

  -- What a decision does keeps the invariant, if its deletion does.
  pub Walks-act :
      (k : String) (p : Prepared)
      → (p.decision.delete_workload ≡ true → Walks K C (delete_expired C k p.live p.draft))
      → Walks K C (act C k p)
  unfolding act apply_decision
  Walks-act k p deletes = Triple-if p.decision.delete_workload _ _ deletes λ _.
      Triple-if p.decision.needs_snapshot _ _
        (λ _. Walks-take_snapshot p.live p.decision p.draft p.now)
        λ _.
          Triple-if p.decision.clear_snapshot_after_scale _ _
            (λ _. Walks-restore p.live p.decision p.draft)
            λ _. Walks-refresh p.live p.decision p.draft p.identity_changed
