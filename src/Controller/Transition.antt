-- ===== src/Controller/Transition.antt =====
-- internal/controller/transition.go: `Reconcile`.
pub mod Rejected
use kube_workload_lm.Base.{String, false, Option, none, some, Result, ok, err}
use kube_workload_lm.Base.Int.{pos}
use kube_workload_lm.Workload.{Workload, key}
use kube_workload_lm.Lifecycle.Decision.{Decision}
use kube_workload_lm.Lifecycle.Revision.{Hasher}
use kube_workload_lm.Schedule.Calendar.{Zones}
use kube_workload_lm.Policy.Types.{Matchers, Policy}
use kube_workload_lm.Controller.Effects.{Collaborators, Machine, TransitionError}
use kube_workload_lm.Controller.Draft.{Prepared}
use kube_workload_lm.Controller.Prepare.{prepare}
use kube_workload_lm.Controller.Act.{act}

-- `lifecycle.Decision{}`
abbrev pub zero_decision : Decision
zero_decision = record {
  desired_replicas = pos 0;
  reason = "";
  needs_snapshot = false;
  should_scale = false;
  clear_snapshot_after_scale = false;
  delete_workload = false;
}

-- The pair that `Reconcile` returns.
abbrev pub Outcome : Collaborators → Type 0
Outcome C = Decision × Option (TransitionError C.Failure)

module _ (C : Collaborators) where
  abbrev pub failure_of :
      Result (TransitionError C.Failure) (Unit {0}) → Option (TransitionError C.Failure)
  failure_of (ok u) = none
  failure_of (err e) = some e

  unfoldable pub conclude :
      Decision → Result (TransitionError C.Failure) (Unit {0}) × Machine C → Outcome C × Machine C
  conclude decision (r, s) = ((decision, failure_of r), s)

  unfoldable pub finish :
      String → Result (TransitionError C.Failure) Prepared × Machine C → Outcome C × Machine C
  unfolding conclude
  finish k (ok p, s) = conclude p.decision (act C k p s)
  finish k (err e, s) = ((zero_decision, some e), s)

  module _ (H : Hasher) (Z : Zones) {M : Matchers} where
    -- `Reconcile`
    unfoldable pub reconcile : Workload → Policy M → Machine C → Outcome C × Machine C
    unfolding finish act prepare
    reconcile current selected s = finish (key current) (prepare C H Z current selected s)
