-- ===== src/Controller/Transition/Rejected.antt =====
-- A transition of a workload that is not admitted.
use kube_workload_lm.Base.{some, ◌≡◌, refl}
use kube_workload_lm.Workload.{Workload}
use kube_workload_lm.Workload.Hpa.{HpaError, rejection}
use kube_workload_lm.Lifecycle.Revision.{Hasher}
use kube_workload_lm.Schedule.Calendar.{Zones}
use kube_workload_lm.Policy.Types.{Matchers, Policy}
use kube_workload_lm.Controller.Effects.{Collaborators, Machine, rejected, admit, refuse, ◌>>=◌}
use kube_workload_lm.Controller.Prepare.{prepare}
use kube_workload_lm.Controller.Transition.{reconcile, finish, zero_decision}

module _ (C : Collaborators) (H : Hasher) (Z : Zones) {M : Matchers} where
  -- If the admission rejects the workload, a transition makes no call of the store, the scale
  -- gateway or the deleter, decides nothing, and reports the rejection.
  pub reconcile_rejected :
      (current : Workload) (selected : Policy M) (s : Machine C) (e : HpaError C.Failure)
      → rejection (C.evaluate current s.world).0 ≡ some e
      → reconcile C H Z current selected s ≡ (
        (zero_decision, some (rejected e)),
        record { world = (C.evaluate current s.world).1; calls = s.calls },
      )
  unfolding reconcile prepare admit refuse ◌>>=◌ finish
  reconcile_rejected current selected s e h = rw h refl
