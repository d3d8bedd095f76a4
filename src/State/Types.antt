-- ===== src/State/Types.antt =====
-- internal/state/types.go: the state kept for each workload, and the document that holds it.
use kube_workload_lm.Base.{String, Bool, false, List, [], Option, none, some}
use kube_workload_lm.Base.Int.{ℤ, pos}
use kube_workload_lm.Base.Time.{Time, zero_time}
use kube_workload_lm.Base.Dict.{Dict}
use kube_workload_lm.Workload.{Kind, Container, join_key}

pub record ReplicaSnapshot : Type 0 where
  pub replicas : ℤ
  pub captured_at : Time
  pub captured_reason : String

pub record Revision : Type 0 where
  pub source : String
  pub containers : List Container

pub record WorkloadState : Type 0 where
  pub kind : Kind
  pub namespace : String
  pub name : String
  pub workload_uid : String
  pub last_policy_name : String
  pub tracking_spec_hash : String
  pub revision_hash : String
  pub revision : Revision
  pub first_seen_at : Time
  pub last_seen_at : Time
  pub replica_snapshot : Option ReplicaSnapshot
  pub window_entry_revision : String
  pub window_instance_id : String
  pub scale_down_skipped : Bool
  pub scale_down_skip_reason : String

-- `WorkloadState.Key`
abbrev pub state_key : WorkloadState → String
state_key s = join_key s.kind s.namespace s.name

abbrev pub States : Type 0
States = Dict WorkloadState

-- A nil map of states is `none`.
pub record Document : Type 0 where
  pub format_version : ℤ
  pub states : Option States

abbrev pub format_version : ℤ
format_version = pos 1

-- `NewDocument`
abbrev pub new_document : Document
new_document = record { format_version = format_version; states = some [] }

-- What a map lookup gives for a missing key.
abbrev pub zero_state : WorkloadState
zero_state = record {
  kind = "";
  namespace = "";
  name = "";
  workload_uid = "";
  last_policy_name = "";
  tracking_spec_hash = "";
  revision_hash = "";
  revision = record { source = ""; containers = [] };
  first_seen_at = zero_time;
  last_seen_at = zero_time;
  replica_snapshot = none;
  window_entry_revision = "";
  window_instance_id = "";
  scale_down_skipped = false;
  scale_down_skip_reason = "";
}
