-- ===== src/Observability/Labels.antt =====
-- The labels of the counters, which must not grow with what the controller is told.
use text.Mathlib.Text.{starts_with}
use kube_workload_lm.Base.{
  String, ◌==◌, Bool, true, false, ◌||◌, List, [], ◌∷◌, ◌≡◌, inl, inr, refl, arith, none, some, any,
  is_set, Bool-cases, if◌then◌else◌,
}
use kube_workload_lm.Observability.{
  Increment, reconciliations, decisions, errors, policy_reloads, Metrics, Telemetry, TelemetryEvent,
  controller_started, controller_stopped, reconciled, policy_event, runtime_error, state_loaded,
  running_set, observe_load, reasons, listed_reason, bounded_reason, type_name, refresh_readiness,
  observe_reconcile, observe, observe_all, count_reconcile, count_policy_event, increment_if,
}
use kube_workload_lm.Policy.Watch.{
  PolicyEventType, event_reloaded, event_reload_rejected, event_deleted, event_error,
  event_disconnected,
}

abbrev results : List String
results = "reloaded" ∷ "reload-rejected" ∷ "deleted" ∷ "error" ∷ "disconnected" ∷ []

abbrev pub is_in : String → List String → Bool
is_in s l = any (λ r. r == s) l

-- The reasons that a decision may be counted under.
abbrev pub is_reason : String → Bool
is_reason s = (s == "scale-down-window") || is_in s reasons || (s == "other")

-- An error has one of these reasons, the result of a reload, or "runtime-error".
abbrev pub IsBounded : Increment → Type 0
IsBounded (reconciliations kind result) = Unit
IsBounded (decisions kind reason) = is_reason reason ≡ true
IsBounded (errors component reason) =
    (is_reason reason || is_in reason results || (reason == "runtime-error")) ≡ true
IsBounded (policy_reloads result) = is_in result results ≡ true

abbrev pub AreBounded : List Increment → Type 0
AreBounded [] = Unit
AreBounded (i ∷ rest) = IsBounded i × AreBounded rest

known_or_other : (a b c : Bool) → b ≡ true → (a || b || c) ≡ true
known_or_other true b c h = refl
known_or_other false true c h = refl
known_or_other false false c h = grind arith

listed_reason-is_reason : (reason : String) → is_reason (listed_reason reason reasons) ≡ true
listed_reason-is_reason reason = elim (Bool-cases (is_in reason reasons)) [
  | inl known ↦ rw known (known_or_other _ _ _ known)
  | inr unknown ↦ rw unknown refl
]

prefix_or_listed :
    (b : Bool) (reason : String)
    → is_reason (if b then "scale-down-window" else listed_reason reason reasons) ≡ true
prefix_or_listed true reason = refl
prefix_or_listed false reason = listed_reason-is_reason reason

bounded_reason-is_reason : (reason : String) → is_reason (bounded_reason reason) ≡ true
unfolding bounded_reason
bounded_reason-is_reason reason = prefix_or_listed (starts_with reason "scale-down-window") reason

type_name-is_result : (type : PolicyEventType) → is_in (type_name type) results ≡ true
type_name-is_result event_reloaded = refl
type_name-is_result event_reload_rejected = refl
type_name-is_result event_deleted = refl
type_name-is_result event_error = refl
type_name-is_result event_disconnected = refl

or_left : (a b c : Bool) → a ≡ true → (a || b || c) ≡ true
or_left a b c h = ground arith

increment_if-AreBounded :
    (b : Bool) (i : Increment) (m : Metrics)
    → IsBounded i
    → AreBounded m.increments
    → AreBounded (increment_if b i m).increments
increment_if-AreBounded true i m h k = (h, k)
increment_if-AreBounded false i m h k = k

module _ {F G : Type 0} where
  observe-AreBounded :
      (event : TelemetryEvent F G) (t : Telemetry)
      → AreBounded t.metrics.increments
      → AreBounded (observe event t).metrics.increments
  unfolding observe observe_load observe_reconcile refresh_readiness count_reconcile
      count_policy_event
  observe-AreBounded (controller_started a) t h = h
  observe-AreBounded (controller_stopped a) t h = h
  observe-AreBounded (reconciled e a) t h =
      let known = bounded_reason-is_reason e.reason in
      increment_if-AreBounded (is_set e.error) _ _ (or_left _ _ _ known) (known, (tt, h))
  observe-AreBounded (policy_event e a) t h =
      let known = type_name-is_result e.type in
      increment_if-AreBounded (is_set e.error) _ _ (known_or_other _ _ _ known) (known, h)
  observe-AreBounded (runtime_error c) t h = (refl, h)
  observe-AreBounded (state_loaded none) t h = h
  observe-AreBounded (state_loaded (some e)) t h = (refl, h)
  observe-AreBounded (running_set b) t h = h

  -- Whatever reasons and errors come, from counters whose labels of a reason and of a reload are
  -- from the fixed lists, the counters keep to these lists.
  pub observe_all-AreBounded :
      (events : List (TelemetryEvent F G)) (t : Telemetry)
      → AreBounded t.metrics.increments
      → AreBounded (observe_all events t).metrics.increments
  unfolding observe_all
  observe_all-AreBounded [] t h = h
  observe_all-AreBounded (event ∷ rest) t h =
      observe_all-AreBounded rest (observe event t) (observe-AreBounded event t h)
