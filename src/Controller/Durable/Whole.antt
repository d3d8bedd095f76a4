-- ===== src/Controller/Durable/Whole.antt =====
-- What a transition does after its decision, and the whole of it, writes scale only under a durable
-- snapshot.
use kube_workload_lm.Base.{
  String, Bool, true, false, none, some, List, Result, ok, err, ◌≡◌, refl, arith,
}
use kube_workload_lm.Base.Time.{Time}
use kube_workload_lm.Workload.{Workload, key}
use kube_workload_lm.Lifecycle.Decision.{Decision}
use kube_workload_lm.Lifecycle.Revision.{Hasher}
use kube_workload_lm.Schedule.Calendar.{Zones}
use kube_workload_lm.Policy.Types.{Matchers, Policy}
use kube_workload_lm.Controller.Effects.{
  Collaborators, Call, TransitionError, Machine, Action, Operation, persist_snapshot,
  clear_snapshot, update_state,
}
use kube_workload_lm.Controller.Effects.Rules.{
  After, Triple, Triple-pure, Triple-bind, Triple-save_document, Triple-delete_workload, Triple-if,
  Triple-weaken,
}
use kube_workload_lm.Controller.Draft.{Draft, Prepared, put, when, save}
use kube_workload_lm.Controller.Prepare.{prepare}
use kube_workload_lm.Controller.Act.{
  delete_expired, take_snapshot, restore, refresh, apply_decision, act, with_snapshot, snapshot_of,
}
use kube_workload_lm.Controller.Transition.{reconcile, finish, conclude}
use kube_workload_lm.Controller.Durable.{
  has_durable_snapshot, IsGuarded, lookup_own, save-Tracks, ReadsCopy,
}
use kube_workload_lm.Controller.Durable.Steps.{Ready, scale-IsGuarded, prepare-Ready}

Triple-when :
    {C : Collaborators} {P Q E : List Call → Type 0} (b : Bool) (m : Action C (Unit {0}))
    → (b ≡ true → Triple P m (λ _. Q) E)
    → ((l : List Call) → P l → Q l)
    → Triple P (when C b m) (λ _. Q) E
Triple-when true m h k = h refl
Triple-when false m h k = Triple-pure tt k

save-IsGuarded :
    (C : Collaborators) (operation : Operation) (d : Draft)
    → Triple IsGuarded (save C operation d) (λ _. IsGuarded) IsGuarded
unfolding save
save-IsGuarded C operation d = Triple-save_document C _ _ (λ l h. (tt, h)) (λ l h. (tt, h))

module _ (C : Collaborators) (k : String) (live : Workload) (same : key live ≡ k)
    (decision : Decision) where
  -- The scale write after a snapshot was saved.
  take_snapshot-IsGuarded :
      (d : Draft) (now : Time)
      → Triple IsGuarded (take_snapshot C live decision d now) (λ _. IsGuarded) IsGuarded
  unfolding take_snapshot
  take_snapshot-IsGuarded d now =
      Triple-bind _ _
        (save-Tracks C (key live) persist_snapshot
          (with_snapshot (some (snapshot_of live decision now)) (key live) d)
          (lookup_own (key live) _ d.states) (λ l h. h))
        λ _.
          Triple-when decision.should_scale _
            (λ _. scale-IsGuarded C (key live) live refl _ _ λ l h. (h.0, h.1 refl)) (λ l h. h.0)

  restore-IsGuarded :
      (d : Draft)
      → Triple
          (λ l. IsGuarded l × (has_durable_snapshot k l ≡ true))
          (restore C live decision d)
          (λ _. IsGuarded)
          IsGuarded
  unfolding restore
  restore-IsGuarded d =
      Triple-bind _ _ (scale-IsGuarded C k live same _ _ λ l h. h)
        λ _. save-IsGuarded C clear_snapshot (with_snapshot none (key live) d)

  refresh-IsGuarded :
      (d : Draft) (b : Bool)
      → Triple
          (λ l. IsGuarded l × (decision.should_scale ≡ true → has_durable_snapshot k l ≡ true))
          (refresh C live decision d b)
          (λ _. IsGuarded)
          IsGuarded
  unfolding refresh
  refresh-IsGuarded d b =
      Triple-bind _ _
        (Triple-when decision.should_scale _
          (λ on. scale-IsGuarded C k live same _ _ λ l h. (h.0, h.1 on)) (λ l h. h.0))
        λ _.
          Triple-when _ _ (λ _. save-IsGuarded C update_state (put (key live) d.current d)) λ l h. h

module _ (C : Collaborators) where
  delete_expired-IsGuarded :
      (k : String) (live : Workload) (d : Draft)
      → Triple IsGuarded (delete_expired C k live d) (λ _. IsGuarded) IsGuarded
  unfolding delete_expired
  delete_expired-IsGuarded k live d =
      Triple-bind _ _
        (Triple-delete_workload C {Q = λ _. IsGuarded} live (λ l h. (tt, h)) (λ l h. (tt, h)))
        λ _. Triple-save_document C _ _ (λ l h. (tt, h)) (λ l h. (tt, h))

  act-IsGuarded :
      (k : String) (p : Prepared)
      → Triple (Ready k (p.live, p.draft, p.decision)) (act C k p) (λ _. IsGuarded) IsGuarded
  unfolding act apply_decision
  act-IsGuarded k p =
      Triple-if p.decision.delete_workload _ _
        (λ _. Triple-weaken _ (λ l h. h.0) (delete_expired-IsGuarded k p.live p.draft))
        λ del.
          Triple-if p.decision.needs_snapshot _ _
            (λ _.
              Triple-weaken _ (λ l h. h.0)
                (take_snapshot-IsGuarded C (key p.live) p.live refl p.decision p.draft p.now))
            λ needs.
              Triple-if p.decision.clear_snapshot_after_scale _ _
                (λ clear. record {
                  at = λ s h.
                      (restore-IsGuarded C k p.live h.1 p.decision p.draft).at s
                        (h.0, h.2 del needs (ground arith));
                })
                λ clear. record {
                  at = λ s h.
                      (refresh-IsGuarded C k p.live h.1 p.decision p.draft p.identity_changed).at s
                        (h.0, λ on. h.2 del needs (ground arith));
                }

  conclude-IsGuarded :
      (decision : Decision) (r : Result (TransitionError C.Failure) (Unit {0}) × Machine C)
      → After (λ _. IsGuarded) IsGuarded r
      → IsGuarded (conclude C decision r).1.calls
  unfolding conclude
  conclude-IsGuarded decision (ok u, s) h = h
  conclude-IsGuarded decision (err e, s) h = h

  finish-IsGuarded :
      (k : String) (r : Result (TransitionError C.Failure) Prepared × Machine C)
      → After (λ p. Ready k (p.live, p.draft, p.decision)) IsGuarded r
      → IsGuarded (finish C k r).1.calls
  unfolding finish
  finish-IsGuarded k (ok p, s) h =
      conclude-IsGuarded p.decision (act C k p s) ((act-IsGuarded k p).at s h)
  finish-IsGuarded k (err e, s) h = h

module _ (C : Collaborators) (H : Hasher) (Z : Zones) {M : Matchers} where
  -- If Read returns a copy of the workload, a transition writes the scale of a workload only
  -- while the newest document that the store has loaded or saved holds a replica snapshot for
  -- it, whichever calls fail, provided that the writes logged before it were of that kind too.
  pub reconcile-IsGuarded :
      (current : Workload) (selected : Policy M) (s : Machine C)
      → ReadsCopy C
      → IsGuarded s.calls
      → IsGuarded (reconcile C H Z current selected s).1.calls
  unfolding reconcile
  reconcile-IsGuarded current selected s R h =
      finish-IsGuarded C (key current) (prepare C H Z current selected s)
        ((prepare-Ready C R Z current selected H).at s h)
