-- ===== src/Tests/Observed.antt =====
-- The telemetry of a controller that has loaded its state, started and failed once.
use kube_workload_lm.Base.{String, true, false, ◌&&◌, Option, none, some, List, [], ◌∷◌, ◌≡◌}
use kube_workload_lm.Policy.Watch.{event_reload_rejected, event_reloaded, unsupported_event}
use kube_workload_lm.Controller.Orchestrator.{ReconcileObservation, ControlError, transition_error}
use kube_workload_lm.Controller.Transition.{zero_decision}
use kube_workload_lm.Observability.{
  Metrics, Answers, TelemetryEvent, controller_started, reconciled, policy_event, runtime_error,
  state_loaded, running_set, new_telemetry, policy_ready, is_ready, observe_all,
}
use kube_workload_lm.Observability.Ready.{runs_after, has_dependencies, is_ready-observe_all}
use kube_workload_lm.Observability.Labels.{AreBounded, observe_all-AreBounded}
use kube_workload_lm.Tests.Cluster.{web}

abbrev no_metrics : Metrics
no_metrics = record { increments = []; policy_gauge = 0; ready_gauge = 0 }

abbrev available : Answers
available = record { first = some true; second = some true }

abbrev observation_of : String → String → Option (ControlError String) → ReconcileObservation String
observation_of reason result error = record {
  workload = web;
  policy = "nightly";
  reason = reason;
  result = result;
  decision = zero_decision;
  error = error;
}

abbrev events : List (TelemetryEvent String String)
events =
    policy_event (record { type = event_reloaded; error = none }) available
    ∷ state_loaded none
    ∷ running_set false
    ∷ running_set true
    ∷ controller_started available
    ∷ reconciled (observation_of "timeout of web-7f9c" "error" (some (transition_error "timeout")))
        available
    ∷ policy_event (record { type = event_reload_rejected; error = some unsupported_event })
        available
    ∷ runtime_error "workload-watch"
    ∷ []

is_ready-observe_all_example :
    is_ready (observe_all events (new_telemetry no_metrics)).readiness (some true)
    ≡ (runs_after false events && has_dependencies events && policy_ready (some true))
is_ready-observe_all_example = is_ready-observe_all events no_metrics (some true)

is_ready_after_load :
    is_ready (observe_all events (new_telemetry no_metrics)).readiness (some true) ≡ true
unfolding policy_ready
is_ready_after_load = is_ready-observe_all_example

observe_all-AreBounded_example :
    AreBounded (observe_all events (new_telemetry no_metrics)).metrics.increments
observe_all-AreBounded_example = observe_all-AreBounded events (new_telemetry no_metrics) tt
