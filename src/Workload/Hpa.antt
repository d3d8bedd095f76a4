-- ===== src/Workload/Hpa.antt =====
-- internal/workload/hpa.go: admission. A workload that an HPA targets, or whose HPAs cannot be
-- listed, is rejected. The list of HPAs over all namespaces comes from the API server.
pub mod Admission
pub mod Watch
use kube_workload_lm.Base.{
  String, List, [], ◌∷◌, ◌==◌, Bool, true, false, ◌&&◌, not, Option, none, some, Result, ok, err,
  if◌then◌else◌, is_nil,
}
use kube_workload_lm.Workload.{Workload, is_supported}

-- The part of autoscalingv2.HorizontalPodAutoscaler that the code reads.
pub record Hpa : Type 0 where
  pub namespace : String
  pub name : String
  pub target_api_version : String
  pub target_kind : String
  pub target_name : String

pub record HpaReference : Type 0 where
  pub namespace : String
  pub name : String

pub data Reason : Type 0 where
  allowed_reason conflict_reason detection_error_reason : Reason

-- `F` is the type of the API's errors.
pub data HpaError (F : Type 0) : Type 0 where
  unsupported_kind : HpaError F
  list_failed : F → HpaError F
  hpa_conflict : HpaError F

pub record HpaEvaluation (F : Type 0) : Type 0 where
  pub allowed : Bool
  pub reason : Reason
  pub conflicting : Option HpaReference
  pub error : Option (HpaError F)

module _ {F : Type 0} where
  -- `Rejection` is nil only when mutations are safe.
  unfoldable pub rejection : HpaEvaluation F → Option (HpaError F)
  rejection evaluation =
      if evaluation.allowed
      then none
      else if not (is_nil evaluation.error)
      then evaluation.error
      else some hpa_conflict

  rejected_evaluation : HpaError F → HpaEvaluation F
  rejected_evaluation e = record {
    allowed = false;
    reason = detection_error_reason;
    conflicting = none;
    error = some e;
  }

unfoldable pub targets_workload : Hpa → Workload → Bool
targets_workload hpa target =
    hpa.target_api_version == "apps/v1"
    && hpa.target_kind == target.kind
    && hpa.target_name == target.name
    && hpa.namespace == target.namespace

module _ {F : Type 0} where
  -- The loop over the listed HPAs.
  scan : List Hpa → Workload → HpaEvaluation F
  scan [] target = record {
    allowed = true;
    reason = allowed_reason;
    conflicting = none;
    error = none;
  }
  scan (hpa ∷ rest) target =
      if targets_workload hpa target
      then record {
        allowed = false;
        reason = conflict_reason;
        conflicting = some (record { namespace = hpa.namespace; name = hpa.name });
        error = none;
      }
      else scan rest target

  -- `listed` is the answer of the cluster-wide list, asked for only after the test of the kind.
  unfoldable pub evaluate : Workload → Result F (List Hpa) → HpaEvaluation F
  unfolding rejected_evaluation scan targets_workload
  evaluate target (err e) =
      if is_supported target.kind
      then rejected_evaluation (list_failed e)
      else rejected_evaluation unsupported_kind
  evaluate target (ok items) =
      if is_supported target.kind then scan items target else rejected_evaluation unsupported_kind
