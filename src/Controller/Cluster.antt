-- ===== src/Controller/Cluster.antt =====
-- The collaborators of the Reconciler as cmd/controller/main.go makes them: the HPA detector, the scale
-- gateway, the deleter and the ConfigMap store over one cluster, and the controller over these. Each
-- client sees a part of the cluster.
pub mod Admitted
use kube_workload_lm.Base.{List, [], Result, ok, ap, wrap, wrap_ok, if◌then◌else◌}
use kube_workload_lm.Base.Time.{Time}
use kube_workload_lm.Workload.{Workload, key, is_supported}
use kube_workload_lm.Workload.Hpa.{Hpa, HpaEvaluation, evaluate}
use kube_workload_lm.Workload.Scale.{ScaleClient, ScaleError, read, update}
use kube_workload_lm.Workload.Scale.Copies.{read_copies}
use kube_workload_lm.Workload.Deleter.{DeleteClient, DeleteError, delete}
use kube_workload_lm.Lifecycle.Revision.{Hasher}
use kube_workload_lm.Schedule.Calendar.{Zones}
use kube_workload_lm.Policy.Types.{Matchers}
use kube_workload_lm.State.Codec.{Json}
use kube_workload_lm.State.Store.{ConfigMapApi, ConfigMapStateStore, StoreMachine, StoreError}
use kube_workload_lm.State.Store.Operations.{load, save}
use kube_workload_lm.Controller.Effects.{Collaborators}
use kube_workload_lm.Controller.Durable.{IsGuarded, ReadsCopy}
use kube_workload_lm.Controller.Orchestrator.{Control, RunTurn, run}
use kube_workload_lm.Controller.Whole.{Surroundings, controller, run-IsGuarded}

pub record Cluster : Type 1 where
  pub World : Type 0
  pub scales : ScaleClient
  pub scale_state : World → scales.State
  pub with_scale_state : scales.State → World → World
  pub deletions : DeleteClient
  pub delete_state : World → deletions.State
  pub with_delete_state : deletions.State → World → World
  pub config_maps : ConfigMapApi
  pub store_state : World → StoreMachine config_maps
  pub with_store_state : StoreMachine config_maps → World → World
  pub HpaFailure : Type 0
  pub list_hpas : World → Result HpaFailure (List Hpa) × World
  pub now : World → Time × World

pub data ClusterFailure (K : Cluster) : Type 0 where
  in_store : StoreError K.config_maps.Failure → ClusterFailure K
  in_scale : ScaleError K.scales.Failure → ClusterFailure K
  in_deletion : DeleteError K.deletions.Failure → ClusterFailure K
  in_hpas : K.HpaFailure → ClusterFailure K

module _ (K : Cluster) (J : Json) (store : ConfigMapStateStore K.config_maps) where
  -- A part of the cluster has moved on, and an error is reported as its own.
  abbrev put_back :
      {S E A : Type 0}
      → (E → ClusterFailure K)
      → (S → K.World → K.World)
      → K.World
      → Result E A × S
      → Result (ClusterFailure K) A × K.World
  put_back f put w (r, s) = (wrap f r, put s w)

  abbrev evaluated :
      Workload
      → Result K.HpaFailure (List Hpa) × K.World
      → HpaEvaluation (ClusterFailure K) × K.World
  evaluated current (r, w) = (evaluate current (wrap in_hpas r), w)

  abbrev pub collaborators_of : Collaborators
  collaborators_of = record {
    World = K.World;
    Failure = ClusterFailure K;
    evaluate = λ current w.
        if is_supported current.kind
        then evaluated current (K.list_hpas w)
        else (evaluate current (ok []), w);
    now = K.now;
    load =
        λ w. put_back in_store K.with_store_state w (load K.config_maps J store (K.store_state w));
    save = λ document w.
        put_back in_store K.with_store_state w
          (save K.config_maps J store document (K.store_state w));
    read = λ current w.
        put_back in_scale K.with_scale_state w (read K.scales current (K.scale_state w));
    update = λ current replicas w.
        put_back in_scale K.with_scale_state w (update K.scales current replicas (K.scale_state w));
    delete = λ current w.
        put_back in_deletion K.with_delete_state w (delete K.deletions current (K.delete_state w));
  }

  collaborators_of-ReadsCopy : ReadsCopy collaborators_of
  unfolding key
  collaborators_of-ReadsCopy = record {
    same_key = λ current live w h.
        ap key (read_copies K.scales current live (K.scale_state w) (wrap_ok in_scale _ live h));
  }

  -- However the turns of a run fall out, and whatever the API server answers, the controller over its
  -- store, gateway, deleter and detector writes the scale of a workload only while the newest document
  -- that the store has loaded or saved holds a replica snapshot for it, provided that the writes
  -- logged before were of that kind too.
  pub cluster_run-IsGuarded :
      (H : Hasher) (Z : Zones) {M : Matchers} (S : Surroundings collaborators_of M)
      (turns : List RunTurn) (s : Control (controller collaborators_of H Z S))
      → IsGuarded s.world.calls
      → IsGuarded (run (controller collaborators_of H Z S) turns s).world.calls
  cluster_run-IsGuarded H Z S turns s h =
      run-IsGuarded collaborators_of H Z S turns s collaborators_of-ReadsCopy h
