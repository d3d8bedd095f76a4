-- ===== src/Tests/Transitions.antt =====
-- Transitions of one workload in the cluster.
use kube_workload_lm.Base.{◌≡◌, ◌≢◌, arith, is_set, ◌⊎◌, true, eq_iff}
use kube_workload_lm.Controller.Transition.{reconcile}
use kube_workload_lm.Controller.Failures.{IsClean, IsStopped, reconcile-IsStopped}
use kube_workload_lm.Controller.Durable.{IsGuarded}
use kube_workload_lm.Controller.Durable.Whole.{reconcile-IsGuarded}
use kube_workload_lm.Controller.Deletion.{DeletesNothing, reconcile_spares}
use kube_workload_lm.Tests.Cluster.{
  memory, memory_reads, toy_hasher, one_zone, web, nightly, untouched,
}

reconcile-IsStopped_example :
    let (outcome, s') = reconcile memory toy_hasher one_zone web nightly untouched in
    IsStopped s'.calls × (IsClean s'.calls ⊎ (is_set outcome.1 ≡ true))
reconcile-IsStopped_example =
    reconcile-IsStopped memory toy_hasher one_zone web nightly untouched tt

reconcile-IsGuarded_example :
    IsGuarded (reconcile memory toy_hasher one_zone web nightly untouched).1.calls
reconcile-IsGuarded_example =
    reconcile-IsGuarded memory toy_hasher one_zone web nightly untouched memory_reads tt

scale_not_delete : nightly.lifecycle.expired_action ≢ "delete"
scale_not_delete h = ground (arith, eq_iff "scale" "delete")

reconcile_spares_example :
    DeletesNothing (reconcile memory toy_hasher one_zone web nightly untouched).1.calls
reconcile_spares_example =
    reconcile_spares memory toy_hasher one_zone web nightly untouched scale_not_delete tt
