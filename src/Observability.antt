-- ===== src/Observability.antt =====
-- internal/observability/runtime.go and metrics.go: the readiness, the gauges of it, and the labels of
-- the counters, as the events of the controller come in. The lines of the log are left out.
pub mod Ready
pub mod Labels
use text.Mathlib.Text.{starts_with}
use kube_workload_lm.Base.{
  ℕ, String, ◌==◌, Bool, true, false, ◌&&◌, Option, none, some, List, [], ◌∷◌, is_nil, is_set, any,
  if◌then◌else◌,
}
use kube_workload_lm.Policy.Watch.{
  PolicyEvent, PolicyEventType, event_reloaded, event_reload_rejected, event_deleted, event_error,
  event_disconnected,
}
use kube_workload_lm.Controller.Orchestrator.{ReconcileObservation}

-- `Readiness`, without the provider of the policies.
pub record Readiness : Type 0 where
  pub controller_on : Bool
  pub dependencies : Bool

abbrev pub new_readiness : Readiness
new_readiness = record { controller_on = false; dependencies = false }

-- What one call of `PolicyReady` finds: none without a provider, else the flag of `Current`.
unfoldable pub policy_ready : Option Bool → Bool
policy_ready none = false
policy_ready (some answer) = answer

-- `Readiness.Ready`
unfoldable pub is_ready : Readiness → Option Bool → Bool
is_ready readiness provider =
    readiness.controller_on && readiness.dependencies && policy_ready provider

-- An increment of a counter, with its labels.
pub data Increment : Type 0 where
  reconciliations decisions errors : String → String → Increment
  policy_reloads : String → Increment

pub record Metrics : Type 0 where
  -- newest first
  pub increments : List Increment
  pub policy_gauge : ℕ
  pub ready_gauge : ℕ

pub record Telemetry : Type 0 where
  pub readiness : Readiness
  pub metrics : Metrics

-- `NewTelemetry` over a new readiness.
abbrev pub new_telemetry : Metrics → Telemetry
new_telemetry metrics = record { readiness = new_readiness; metrics = metrics }

abbrev pub reasons : List String
reasons =
    "revision-lifecycle-expired" ∷ "restore-previous-replicas" ∷ "active-window"
    ∷ "no-policy-snapshot" ∷ "policy-conflict" ∷ "no-matching-policy" ∷ "transition-error" ∷ []

abbrev pub listed_reason : String → List String → String
listed_reason reason known = if any (λ r. r == reason) known then reason else "other"

unfoldable pub bounded_reason : String → String
bounded_reason reason =
    if starts_with reason "scale-down-window"
    then "scale-down-window"
    else listed_reason reason reasons

unfoldable pub bool_float : Bool → ℕ
bool_float true = 1
bool_float false = 0

abbrev pub type_name : PolicyEventType → String
type_name event_reloaded = "reloaded"
type_name event_reload_rejected = "reload-rejected"
type_name event_deleted = "deleted"
type_name event_error = "error"
type_name event_disconnected = "disconnected"

-- `Inc`
abbrev pub increment : Increment → Metrics → Metrics
increment i m = record m { increments = i ∷ m.increments }

abbrev pub increment_if : Bool → Increment → Metrics → Metrics
increment_if true i m = increment i m
increment_if false i m = m

-- `Metrics.ObserveReconcile`
unfoldable pub count_reconcile : {F : Type 0} → ReconcileObservation F → Metrics → Metrics
count_reconcile event m =
    increment_if (is_set event.error) (errors "reconcile" (bounded_reason event.reason)) (
      increment (decisions event.workload.kind (bounded_reason event.reason))
        (increment (reconciliations event.workload.kind event.result) m))

-- `Metrics.ObservePolicyEvent`
unfoldable pub count_policy_event : {G : Type 0} → PolicyEvent G → Metrics → Metrics
count_policy_event event m =
    increment_if (is_set event.error) (errors "policy" (type_name event.type))
      (increment (policy_reloads (type_name event.type)) m)

-- `Metrics.SetReadiness`
abbrev pub set_readiness : Bool → Bool → Metrics → Metrics
set_readiness policy ready m = record m {
  policy_gauge = bool_float policy;
  ready_gauge = bool_float ready;
}

-- What the two calls of `Current` in a refresh of the gauges answer.
pub record Answers : Type 0 where
  pub first : Option Bool
  pub second : Option Bool

-- `Telemetry.refreshReadiness`
unfoldable pub refresh_readiness : Answers → Telemetry → Telemetry
refresh_readiness answers t = record t {
  metrics =
      set_readiness (policy_ready answers.first) (is_ready t.readiness answers.second) t.metrics;
}

pub data TelemetryEvent (F G : Type 0) : Type 0 where
  controller_started controller_stopped : Answers → TelemetryEvent F G
  reconciled : ReconcileObservation F → Answers → TelemetryEvent F G
  policy_event : PolicyEvent G → Answers → TelemetryEvent F G
  runtime_error : String → TelemetryEvent F G
  -- what reaches the readiness past the telemetry: the first `Load` of the state that
  -- cmd/controller/main.go makes, with its error, and the flag that `Coordinator.Run` sets
  state_loaded : Option F → TelemetryEvent F G
  running_set : Bool → TelemetryEvent F G

abbrev pub set_running : Bool → Telemetry → Telemetry
set_running running t = record t { readiness = record (t.readiness) { controller_on = running } }

abbrev pub is_success : {F : Type 0} → ReconcileObservation F → Bool
is_success event = is_nil event.error && (event.result == "success")

abbrev pub set_dependencies : Bool → Readiness → Readiness
set_dependencies true r = record r { dependencies = true }
set_dependencies false r = r

-- `Telemetry.ObserveReconcile`
unfoldable pub observe_reconcile :
    {F : Type 0} → ReconcileObservation F → Answers → Telemetry → Telemetry
observe_reconcile event answers t = refresh_readiness answers (record {
  readiness = set_dependencies (is_success event) t.readiness;
  metrics = count_reconcile event t.metrics;
})

-- `Telemetry.ObserveError`
abbrev pub observe_error : String → Telemetry → Telemetry
observe_error component t = record t {
  metrics = increment (errors component "runtime-error") t.metrics;
}

-- What `run` does after the first `Load`.
unfoldable pub observe_load : {F : Type 0} → Option F → Telemetry → Telemetry
observe_load none t = record t { readiness = set_dependencies true t.readiness }
observe_load (some failure) t = observe_error "state-store" t

-- What the entry point, the coordinator, the controller and the watches call.
unfoldable pub observe : {F G : Type 0} → TelemetryEvent F G → Telemetry → Telemetry
observe (controller_started answers) t = refresh_readiness answers (set_running true t)
observe (controller_stopped answers) t = refresh_readiness answers (set_running false t)
observe (reconciled event answers) t = observe_reconcile event answers t
observe (policy_event event answers) t =
    refresh_readiness answers (record t { metrics = count_policy_event event t.metrics })
observe (runtime_error component) t = observe_error component t
observe (state_loaded error) t = observe_load error t
observe (running_set running) t = set_running running t

-- The events in their order.
unfoldable pub observe_all : {F G : Type 0} → List (TelemetryEvent F G) → Telemetry → Telemetry
observe_all [] t = t
observe_all (event ∷ rest) t = observe_all rest (observe event t)
