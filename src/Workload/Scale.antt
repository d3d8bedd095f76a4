-- ===== src/Workload/Scale.antt =====
-- internal/workload/scale.go: the gateway to the scale subresource. The typed client of the API
-- server is a parameter over an unknown cluster state; `ctx.Err()` is read from that state too.
pub mod Copies
use kube_workload_lm.Base.{String, ◌==◌, Option, none, some, Result, ok, err, if◌then◌else◌}
use kube_workload_lm.Base.Int.{ℤ}
use kube_workload_lm.Workload.{Kind, Workload, kind_deployment, kind_stateful_set}

pub data Resource : Type 0 where
  deployments stateful_sets : Resource

-- The client's scale calls. `Scale` is the whole autoscalingv1.Scale object, of which the code
-- reads and writes `Spec.Replicas`.
pub record ScaleClient : Type 1 where
  pub State : Type 0
  pub Failure : Type 0
  pub Scale : Type 0
  pub replicas : Scale → ℤ
  pub with_replicas : Scale → ℤ → Scale
  pub cancelled : State → Option Failure
  pub get_scale : Resource → String → String → State → Result Failure (Option Scale) × State
  pub update_scale : Resource → String → String → Scale → State → Result Failure Scale × State

-- The switch over the kind.
unfoldable pub resource : Kind → Option Resource
resource kind =
    if kind == kind_deployment
    then some deployments
    else if kind == kind_stateful_set
    then some stateful_sets
    else none

pub data ScaleError (F : Type 0) : Type 0 where
  get_cancelled get_failed update_cancelled update_failed : F → ScaleError F
  empty_scale : ScaleError F
  unsupported_kind : Kind → ScaleError F

module _ (C : ScaleClient) where
  abbrev pub Answer : Type 0 → Type 0
  Answer A = Result (ScaleError C.Failure) A × C.State

  -- What `get` makes of the API's answer.
  fetched : Result C.Failure (Option C.Scale) × C.State → Answer C.Scale
  fetched (err e, s) = (err (get_failed e), s)
  fetched (ok none, s) = (err empty_scale, s)
  fetched (ok (some scale), s) = (ok scale, s)

  unfoldable pub get : Workload → C.State → Answer C.Scale
  unfolding fetched
  get current s = elim (C.cancelled s) [
    | some e ↦ (err (get_cancelled e), s)
    | none ↦ elim (resource current.kind) [
      | none ↦ (err (unsupported_kind current.kind), s)
      | some r ↦ fetched (C.get_scale r current.namespace current.name s)
    ]
  ]

  written : Result C.Failure C.Scale × C.State → Answer (Unit {0})
  written (err e, s) = (err (update_failed e), s)
  written (ok scale, s) = (ok tt, s)

  unfoldable pub update_object : Workload → C.Scale → C.State → Answer (Unit {0})
  unfolding written
  update_object current scale s = elim (resource current.kind) [
    | none ↦ (err (unsupported_kind current.kind), s)
    | some r ↦ written (C.update_scale r current.namespace current.name scale s)
  ]

  unfoldable pub read_with : Workload → Answer C.Scale → Answer Workload
  read_with current (err e, s) = (err e, s)
  read_with current (ok scale, s) = (ok (record current { current_replicas = C.replicas scale }), s)

  -- `Read`
  unfoldable pub read : Workload → C.State → Answer Workload
  unfolding get read_with
  read current s = read_with current (get current s)

  update_with : Workload → ℤ → Answer C.Scale → Answer (Unit {0})
  update_with current replicas (err e, s) = (err e, s)
  update_with current replicas (ok scale, s) = elim (C.cancelled s) [
    | some e ↦ (err (update_cancelled e), s)
    | none ↦ update_object current (C.with_replicas scale replicas) s
  ]

  -- `Update`
  unfoldable pub update : Workload → ℤ → C.State → Answer (Unit {0})
  unfolding get update_with update_object
  update current replicas s = update_with current replicas (get current s)
