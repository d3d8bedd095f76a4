-- ===== src/Workload/Gateway.antt =====
-- internal/workload/gateway.go: the inventory of workloads and the conversion of watch events. What
-- the API server lists and sends is a parameter.
use kube_workload_lm.Base.{String, List, map, Option, none, some, Result, ok, err}
use kube_workload_lm.Base.Int.{pos}
use kube_workload_lm.Base.Dict.{Dict}
use kube_workload_lm.Base.Stream.{Turn, forward}
use kube_workload_lm.Workload.{Kind, Container, Workload, kind_deployment, kind_stateful_set}
use kube_workload_lm.Workload.Scale.{Resource, deployments, stateful_sets, resource}

-- The part of an appsv1.Deployment or StatefulSet that the code reads: its metadata, and the
-- name and image of each container of the pod template.
pub record Object : Type 0 where
  pub namespace : String
  pub name : String
  pub uid : String
  pub labels : Dict String
  pub containers : List (String × String)

abbrev to_container : String × String → Container
to_container (name, image) = record { name = name; image = image }

-- `fromPodTemplate`. The replica count stays at its zero value.
unfoldable pub from_pod_template : Kind → Object → Workload
from_pod_template kind o = record {
  kind = kind;
  namespace = o.namespace;
  name = o.name;
  uid = o.uid;
  labels = o.labels;
  containers = map to_container o.containers;
  current_replicas = pos 0;
}

pub data GatewayError (F : Type 0) : Type 0 where
  list_failed : F → GatewayError F
  watch_error : F → GatewayError F
  watch_disconnected : GatewayError F
  unsupported_event wrong_object : GatewayError F
  unsupported_kind : Kind → GatewayError F

module _ {F : Type 0} where
  listed : Kind → Result F (List Object) → Result (GatewayError F) (List Workload)
  listed kind (err e) = err (list_failed e)
  listed kind (ok items) = ok (map (from_pod_template kind) items)

  -- `List`: `answer` is what the API server lists of a resource.
  unfoldable pub list_workloads :
      (Resource → Result F (List Object)) → Kind → Result (GatewayError F) (List Workload)
  unfolding listed resource from_pod_template
  list_workloads answer kind = elim (resource kind) [
    | none ↦ err (unsupported_kind kind)
    | some deployments ↦ listed kind_deployment (answer deployments)
    | some stateful_sets ↦ listed kind_stateful_set (answer stateful_sets)
  ]

-- What a watch of the client sends: its type, and the object, which may be of any type.
pub data RawType : Type 0 where
  added modified deleted other_type error : RawType

pub data RawObject (F : Type 0) : Type 0 where
  deployment stateful_set : Object → RawObject F
  status : F → RawObject F
  other_object : RawObject F

pub data EventType : Type 0 where
  event_added event_modified event_deleted event_error event_disconnected : EventType

pub record Event (F : Type 0) : Type 0 where
  pub type : EventType
  pub kind : Kind
  pub workload : Option Workload
  pub error : Option (GatewayError F)

-- `eventType`
unfoldable pub event_type : RawType → Option EventType
event_type added = some event_added
event_type modified = some event_modified
event_type deleted = some event_deleted
event_type other_type = none
event_type error = none

module _ {F : Type 0} where
  unfoldable pub workload_from_object : Kind → RawObject F → Result (GatewayError F) Workload
  unfolding resource from_pod_template
  workload_from_object kind object = elim (resource kind) [
    | none ↦ err (unsupported_kind kind)
    | some deployments ↦ elim object [
      | deployment o ↦ ok (from_pod_template kind_deployment o)
      | _ ↦ err wrong_object
    ]
    | some stateful_sets ↦ elim object [
      | stateful_set o ↦ ok (from_pod_template kind_stateful_set o)
      | _ ↦ err wrong_object
    ]
  ]

  failed_event : Kind → GatewayError F → Event F
  failed_event kind e = record { type = event_error; kind = kind; workload = none; error = some e }

  converted : EventType → Kind → Result (GatewayError F) Workload → Event F
  converted type kind (err e) = failed_event kind e
  converted type kind (ok w) = record { type = type; kind = kind; workload = some w; error = none }

  -- `convertWatchEvent`. `from_object` is apierrors.FromObject.
  unfoldable pub convert_watch_event : (RawObject F → F) → Kind → RawType → RawObject F → Event F
  unfolding failed_event converted event_type workload_from_object
  convert_watch_event from_object kind error object =
      failed_event kind (watch_error (from_object object))
  convert_watch_event from_object kind raw object = elim (event_type raw) [
    | none ↦ failed_event kind unsupported_event
    | some type ↦ converted type kind (workload_from_object kind object)
  ]

module _ {F : Type 0} (from_object : RawObject F → F) where
  -- `mergedWatchStream.forward`, of the watch of one kind.
  unfoldable pub forward_workloads : Kind → List (Turn (RawType × RawObject F)) → List (Event F)
  forward_workloads kind =
      forward (λ raw. convert_watch_event from_object kind raw.0 raw.1)
        (record {
          type = event_disconnected;
          kind = kind;
          workload = none;
          error = some watch_disconnected;
        })
