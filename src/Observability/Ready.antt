-- ===== src/Observability/Ready.antt =====
-- When the controller counts as ready.
use kube_workload_lm.Base.{
  Bool, true, false, ◌&&◌, ◌||◌, Option, List, [], ◌∷◌, ◌≡◌, refl, ap, ◌∙◌, arith, none, some,
  is_nil,
}
use kube_workload_lm.Observability.{
  Readiness, Metrics, new_telemetry, Telemetry, TelemetryEvent, controller_started,
  controller_stopped, reconciled, policy_event, runtime_error, policy_ready, is_ready,
  refresh_readiness, observe_reconcile, observe, observe_load, state_loaded, running_set,
  observe_all, is_success, set_dependencies,
}

set_dependencies-on :
    (b : Bool) (r : Readiness) → (set_dependencies b r).controller_on ≡ r.controller_on
set_dependencies-on true r = refl
set_dependencies-on false r = refl

set_dependencies-or :
    (b rest : Bool) (r : Readiness)
    → ((set_dependencies b r).dependencies || rest) ≡ (r.dependencies || (b || rest))
set_dependencies-or true rest r = ground arith
set_dependencies-or false rest r = refl

module _ {F G : Type 0} where
  -- Whether the controller runs after the events, if it does before them or not.
  abbrev pub runs_after : Bool → List (TelemetryEvent F G) → Bool
  runs_after running [] = running
  runs_after running (controller_started a ∷ rest) = runs_after true rest
  runs_after running (controller_stopped a ∷ rest) = runs_after false rest
  runs_after running (reconciled e a ∷ rest) = runs_after running rest
  runs_after running (policy_event e a ∷ rest) = runs_after running rest
  runs_after running (runtime_error c ∷ rest) = runs_after running rest
  runs_after running (state_loaded e ∷ rest) = runs_after running rest
  runs_after running (running_set b ∷ rest) = runs_after b rest

  -- The state was loaded at the start, or a reconciliation has succeeded.
  abbrev pub has_dependencies : List (TelemetryEvent F G) → Bool
  has_dependencies [] = false
  has_dependencies (controller_started a ∷ rest) = has_dependencies rest
  has_dependencies (controller_stopped a ∷ rest) = has_dependencies rest
  has_dependencies (reconciled e a ∷ rest) = is_success e || has_dependencies rest
  has_dependencies (policy_event e a ∷ rest) = has_dependencies rest
  has_dependencies (runtime_error c ∷ rest) = has_dependencies rest
  has_dependencies (state_loaded e ∷ rest) = is_nil e || has_dependencies rest
  has_dependencies (running_set b ∷ rest) = has_dependencies rest

  controller_on-observe_all :
      (events : List (TelemetryEvent F G)) (t : Telemetry)
      → (observe_all events t).readiness.controller_on ≡ runs_after t.readiness.controller_on events
  unfolding observe_all observe observe_load observe_reconcile refresh_readiness
  controller_on-observe_all [] t = refl
  controller_on-observe_all (controller_started a ∷ rest) t = controller_on-observe_all rest _
  controller_on-observe_all (controller_stopped a ∷ rest) t = controller_on-observe_all rest _
  controller_on-observe_all (reconciled e a ∷ rest) t =
      controller_on-observe_all rest _
      ∙ ap (λ b. runs_after b rest) (set_dependencies-on (is_success e) t.readiness)
  controller_on-observe_all (policy_event e a ∷ rest) t = controller_on-observe_all rest _
  controller_on-observe_all (runtime_error c ∷ rest) t = controller_on-observe_all rest _
  controller_on-observe_all (state_loaded none ∷ rest) t = controller_on-observe_all rest _
  controller_on-observe_all (state_loaded (some e) ∷ rest) t = controller_on-observe_all rest _
  controller_on-observe_all (running_set b ∷ rest) t = controller_on-observe_all rest _

  dependencies-observe_all :
      (events : List (TelemetryEvent F G)) (t : Telemetry)
      → (observe_all events t).readiness.dependencies
        ≡ (t.readiness.dependencies || has_dependencies events)
  unfolding observe_all observe observe_load observe_reconcile refresh_readiness
  dependencies-observe_all [] t = ground arith
  dependencies-observe_all (controller_started a ∷ rest) t = dependencies-observe_all rest _
  dependencies-observe_all (controller_stopped a ∷ rest) t = dependencies-observe_all rest _
  dependencies-observe_all (reconciled e a ∷ rest) t =
      dependencies-observe_all rest _
      ∙ set_dependencies-or (is_success e) (has_dependencies rest) t.readiness
  dependencies-observe_all (policy_event e a ∷ rest) t = dependencies-observe_all rest _
  dependencies-observe_all (runtime_error c ∷ rest) t = dependencies-observe_all rest _
  dependencies-observe_all (state_loaded none ∷ rest) t =
      dependencies-observe_all rest _ ∙ set_dependencies-or true (has_dependencies rest) t.readiness
  dependencies-observe_all (state_loaded (some e) ∷ rest) t = dependencies-observe_all rest _
  dependencies-observe_all (running_set b ∷ rest) t = dependencies-observe_all rest _

  -- From the start of the process, with whatever metrics, the controller is ready after the events
  -- exactly if the newest word on it is that it runs, the state was loaded at the start or some
  -- reconciliation has succeeded, and a policy set is there when it is asked.
  pub is_ready-observe_all :
      (events : List (TelemetryEvent F G)) (metrics : Metrics) (provider : Option Bool)
      → is_ready (observe_all events (new_telemetry metrics)).readiness provider
        ≡ (runs_after false events && has_dependencies events && policy_ready provider)
  unfolding is_ready
  is_ready-observe_all events metrics provider =
      rw
        (
          controller_on-observe_all events (new_telemetry metrics),
          dependencies-observe_all events (new_telemetry metrics),
        )
        refl
