-- ===== src/Workload/Hpa/Watch.antt =====
-- internal/workload/hpa.go: the conversion of the events of a watch of HPAs.
use kube_workload_lm.Base.{String, Option, none, some, List}
use kube_workload_lm.Base.Stream.{Turn, forward}
use kube_workload_lm.Workload.Gateway.{
  RawType, error, EventType, event_error, event_disconnected, event_type,
}
use kube_workload_lm.Workload.Hpa.{Hpa}

pub record HpaTargetReference : Type 0 where
  pub api_version : String
  pub kind : String
  pub namespace : String
  pub name : String

pub data HpaWatchError (F : Type 0) : Type 0 where
  watch_error : F → HpaWatchError F
  unsupported_event wrong_object hpa_watch_disconnected : HpaWatchError F

pub record HpaEvent (F : Type 0) : Type 0 where
  pub type : EventType
  pub namespace : String
  pub name : String
  pub target : Option HpaTargetReference
  pub error : Option (HpaWatchError F)

pub data RawHpaObject (F : Type 0) : Type 0 where
  hpa_object : Hpa → RawHpaObject F
  other_hpa_object : F → RawHpaObject F

-- `targetReference`, of an HPA that is there.
unfoldable pub target_reference : Hpa → HpaTargetReference
target_reference hpa = record {
  api_version = hpa.target_api_version;
  kind = hpa.target_kind;
  namespace = hpa.namespace;
  name = hpa.target_name;
}

module _ {F : Type 0} (from_object : RawHpaObject F → F) where
  abbrev pub failed_hpa_event : EventType → HpaWatchError F → HpaEvent F
  failed_hpa_event type e = record {
    type = type;
    namespace = "";
    name = "";
    target = none;
    error = some e;
  }

  abbrev pub convert_hpa : EventType → RawHpaObject F → HpaEvent F
  convert_hpa type (other_hpa_object f) = failed_hpa_event event_error wrong_object
  convert_hpa type (hpa_object hpa) = record {
    type = type;
    namespace = hpa.namespace;
    name = hpa.name;
    target = some (target_reference hpa);
    error = none;
  }

  abbrev pub convert_hpa_typed : Option EventType → RawHpaObject F → HpaEvent F
  convert_hpa_typed none object = failed_hpa_event event_error unsupported_event
  convert_hpa_typed (some type) object = convert_hpa type object

  -- `convertHPAWatchEvent`
  unfoldable pub convert_hpa_watch_event : RawType → RawHpaObject F → HpaEvent F
  convert_hpa_watch_event error object =
      failed_hpa_event event_error (watch_error (from_object object))
  convert_hpa_watch_event type object = convert_hpa_typed (event_type type) object

  -- `hpaWatchStream.forward`
  unfoldable pub forward_hpa : List (Turn (RawType × RawHpaObject F)) → List (HpaEvent F)
  forward_hpa =
      forward (λ raw. convert_hpa_watch_event raw.0 raw.1)
        (failed_hpa_event event_disconnected hpa_watch_disconnected)
