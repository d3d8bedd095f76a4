-- ===== src/Controller/Draft.antt =====
-- internal/controller/transition.go: what a transition holds while it runs, and `save`. The map of
-- states, which Go shares by reference, is passed along in the draft.
use kube_workload_lm.Base.{String, Bool, true, false, Option, none, some}
use kube_workload_lm.Base.Int.{ℤ}
use kube_workload_lm.Base.Time.{Time}
use kube_workload_lm.Base.Dict.{insert}
use kube_workload_lm.Workload.{Workload}
use kube_workload_lm.Lifecycle.Decision.{Decision}
use kube_workload_lm.State.Types.{ReplicaSnapshot, WorkloadState, States, Document, zero_state}
use kube_workload_lm.Controller.Effects.{
  Collaborators, Action, Operation, save_failed, pure, save_document,
}

-- The document with its map of states, and the state of the workload at hand.
pub record Draft : Type 0 where
  pub version : ℤ
  pub states : States
  pub current : WorkloadState

abbrev pub document_of : Draft → Document
document_of d = record { format_version = d.version; states = some d.states }

-- `document.States[key] = current`
abbrev pub put : String → WorkloadState → Draft → Draft
put k current d = record d { states = insert k current d.states; current = current }

abbrev pub previous_state : Option WorkloadState → WorkloadState
previous_state none = zero_state
previous_state (some s) = s

abbrev pub name_of : Option String → String
name_of none = ""
name_of (some name) = name

abbrev pub snapshot_count : Option ReplicaSnapshot → Option ℤ
snapshot_count none = none
snapshot_count (some s) = some s.replicas

-- The state marked as exempt from the window's downscale, with its snapshot cleared.
abbrev pub skip : String → WorkloadState → WorkloadState
skip reason s = record s {
  replica_snapshot = none;
  scale_down_skipped = true;
  scale_down_skip_reason = reason;
}

-- That state put into the document.
abbrev pub mark : String → String → Draft → Draft
mark reason k d = put k (skip reason d.current) d

-- What `Reconcile` has at hand once the decision is made.
pub record Prepared : Type 0 where
  pub live : Workload
  pub draft : Draft
  pub decision : Decision
  pub identity_changed : Bool
  pub now : Time

module _ (C : Collaborators) where
  abbrev pub when : Bool → Action C (Unit {0}) → Action C (Unit {0})
  when true m = m
  when false m = pure tt

  -- `r.save`
  unfoldable pub save : Operation → Draft → Action C (Unit {0})
  save operation d = save_document C (save_failed operation) (document_of d)
