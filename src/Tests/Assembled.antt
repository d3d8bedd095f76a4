-- ===== src/Tests/Assembled.antt =====
-- The whole controller over a cluster in memory, whose state document meets a conflict.
use kube_workload_lm.Base.{◌≡◌, ◌⊎◌, String, false, some, [], ◌∷◌, ok}
use kube_workload_lm.Workload.Deleter.{DeleteClient}
use kube_workload_lm.State.Store.{StoreMachine}
use kube_workload_lm.Controller.Durable.{IsGuarded}
use kube_workload_lm.Controller.Orchestrator.{Control, run}
use kube_workload_lm.Controller.Whole.{Surroundings, controller}
use kube_workload_lm.Controller.Effects.{Machine, rejected}
use kube_workload_lm.Controller.Transition.{reconcile, zero_decision}
use kube_workload_lm.Controller.Cluster.Admitted.{IsAdmitted, reconcile-IsAdmitted}
use kube_workload_lm.Workload.Hpa.{Hpa, HpaError}
use kube_workload_lm.Controller.Cluster.{
  Cluster, ClusterFailure, collaborators_of, cluster_run-IsGuarded,
}
use kube_workload_lm.Tests.Cluster.{
  nightly, noon, one_zone, policies, toy_hasher, toy_matchers, web,
}
use kube_workload_lm.Tests.Components.{scale_of_two}
use kube_workload_lm.Tests.Rounds.{turns}
use kube_workload_lm.Tests.Json.{json}
use kube_workload_lm.Tests.Store.{contended, memory, state_store}

abbrev deleter : DeleteClient
deleter = record {
  State = Unit;
  Failure = String;
  delete_object = λ r namespace name propagation s. (ok tt, s);
}

abbrev small_cluster : Cluster
small_cluster = record {
  World = StoreMachine memory;
  scales = scale_of_two;
  scale_state = λ w. tt;
  with_scale_state = λ s w. w;
  deletions = deleter;
  delete_state = λ w. tt;
  with_delete_state = λ s w. w;
  config_maps = memory;
  store_state = λ w. w;
  with_store_state = λ s w. s;
  HpaFailure = String;
  list_hpas = λ w. (ok [], w);
  now = λ w. (noon, w);
}

abbrev inventory : Surroundings (collaborators_of small_cluster json state_store) toy_matchers
inventory = record {
  list = λ kind w. (ok (web ∷ []), w);
  is_cancelled = λ w. (false, w);
  current = λ w. (some policies, w);
}

abbrev assembled :
    Control
      (controller (collaborators_of small_cluster json state_store) toy_hasher one_zone inventory)
assembled = record { world = record { world = contended; calls = [] }; deeds = [] }

cluster_run-IsGuarded_example :
    IsGuarded
      (run
        (controller (collaborators_of small_cluster json state_store) toy_hasher one_zone inventory)
        turns
        assembled).world.calls
cluster_run-IsGuarded_example =
    cluster_run-IsGuarded small_cluster json state_store toy_hasher one_zone inventory turns
      assembled tt

abbrev autoscaler : Hpa
autoscaler = record {
  namespace = web.namespace;
  name = "web";
  target_api_version = "apps/v1";
  target_kind = web.kind;
  target_name = web.name;
}

-- The same cluster, where an HPA targets the workload.
abbrev scaled_cluster : Cluster
scaled_cluster = record small_cluster { list_hpas = λ w. (ok (autoscaler ∷ []), w) }

abbrev idle : Machine (collaborators_of scaled_cluster json state_store)
idle = record { world = contended; calls = [] }

reconcile-IsAdmitted_example :
    let (outcome, s') =
      reconcile
        (collaborators_of scaled_cluster json state_store)
        toy_hasher
        one_zone
        web
        nightly
        idle in
    IsAdmitted scaled_cluster json state_store web idle.world
    ⊎ ((s'.calls ≡ [])
        × (outcome.0 ≡ zero_decision)
        × ((e : HpaError (ClusterFailure scaled_cluster)) × (outcome.1 ≡ some (rejected e))))
reconcile-IsAdmitted_example =
    reconcile-IsAdmitted scaled_cluster json state_store toy_hasher one_zone web nightly idle
