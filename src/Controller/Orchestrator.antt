-- ===== src/Controller/Orchestrator.antt =====
-- internal/controller/orchestrator.go: the rounds of reconciliations and the loop of `Run`. The
-- gateway, the policy provider, the transition and the context are the parameter `Orchestra`; what
-- they are asked, and what the observer and the error handler are told, is logged, newest first. The
-- goroutines of the watches are in Controller/Supervisor.antt.
pub mod Accountable
pub mod Rounds
pub mod Kept
use kube_workload_lm.Base.{
  String, ◌==◌, Bool, true, false, Option, none, some, List, [], ◌∷◌, Result, ok, err,
  if◌then◌else◌,
}
use kube_workload_lm.Workload.{Kind, Workload, key, kind_deployment, kind_stateful_set}
use kube_workload_lm.Lifecycle.Decision.{Decision}
use kube_workload_lm.Policy.Types.{Matchers, Policy, PolicySet}
use kube_workload_lm.Policy.Match.{MatchResult, match_policy, conflict}
use kube_workload_lm.Controller.Transition.{zero_decision}

pub record Orchestra (M : Matchers) : Type 1 where
  pub World : Type 0
  pub Failure : Type 0
  pub list : Kind → World → Result Failure (List Workload) × World
  -- `ctx.Err() != nil`
  pub is_cancelled : World → Bool × World
  -- `PolicyProvider.Current`
  pub current : World → Option (PolicySet M) × World
  -- `TransitionReconciler.Reconcile`
  pub transition : Workload → Policy M → World → (Decision × Option Failure) × World

pub data ControlError (F : Type 0) : Type 0 where
  list_failed : Kind → F → ControlError F
  no_policy_snapshot : String → ControlError F
  policy_conflict : String → List String → ControlError F
  transition_failed : String → F → ControlError F
  -- the error of the transition itself, which the observer is told
  transition_error : F → ControlError F

pub record ReconcileObservation (F : Type 0) : Type 0 where
  pub workload : Workload
  pub policy : String
  pub reason : String
  pub result : String
  pub decision : Decision
  pub error : Option (ControlError F)

pub data Deed (M : Matchers) (F : Type 0) : Type 0 where
  listed : Kind → Option (List Workload) → Deed M F
  looked_up : Option (PolicySet M) → Deed M F
  -- with the decision and the error that it returned
  transitioned : Workload → Policy M → Decision → Option F → Deed M F
  observed : ReconcileObservation F → Deed M F
  handled : ControlError F → Deed M F
  started stopped : Deed M F

-- `reconcileRequest`
pub record Request : Type 0 where
  pub workload : Option Workload
  pub full : Bool

-- What the `select` of `Run` took.
pub data RunTurn : Type 0 where
  run_cancelled ticked : RunTurn
  requested : Request → RunTurn

abbrev pub all_kinds : List Kind
all_kinds = kind_deployment ∷ kind_stateful_set ∷ []

module _ {F : Type 0} where
  abbrev pub observation :
      Workload
      → String
      → String
      → String
      → Decision
      → Option (ControlError F)
      → ReconcileObservation F
  observation current policy reason result decision error = record {
    workload = current;
    policy = policy;
    reason = reason;
    result = result;
    decision = decision;
    error = error;
  }

module _ {M : Matchers} (O : Orchestra M) where
  pub record Control : Type 0 where
    pub world : O.World
    pub deeds : List (Deed M O.Failure)

  abbrev pub note : Deed M O.Failure → Control → Control
  note deed s = record s { deeds = deed ∷ s.deeds }

  abbrev pub refuse : Workload → String → ControlError O.Failure → Control → Control
  refuse current reason error s =
      note (handled error)
        (note (observed (observation current "" reason "error" zero_decision (some error))) s)

  -- After the transition: `observation`, and the error handler.
  abbrev pub conclude_reconcile :
      Workload
      → Policy M
      → (Decision × Option O.Failure) × O.World
      → List (Deed M O.Failure)
      → Control
  conclude_reconcile current selected ((decision, none), w) deeds =
      note (observed (observation current selected.name decision.reason "success" decision none))
        (record { world = w; deeds = deeds })
  conclude_reconcile current selected ((decision, some f), w) deeds =
      let error = transition_failed (key current) f in
      let reason = if decision.reason == "" then "transition-error" else decision.reason in
      note (handled error) (
        note
          (observed
            (observation current selected.name reason "error" decision (some (transition_error f))))
          (record { world = w; deeds = deeds }))

  abbrev pub reconcile_policy : Option (Policy M) → Workload → Control → Control
  reconcile_policy none current s =
      note (observed (observation current "" "no-matching-policy" "skipped" zero_decision none)) s
  reconcile_policy (some selected) current s =
      let answer = O.transition current selected s.world in
      conclude_reconcile current selected answer
        (transitioned current selected answer.0.0 answer.0.1 ∷ s.deeds)

  abbrev pub reconcile_matched : MatchResult M → Workload → Control → Control
  reconcile_matched matched current s =
      if conflict M matched
      then refuse current "policy-conflict" (policy_conflict (key current) matched.conflict_names) s
      else reconcile_policy matched.policy current s

  abbrev pub reconcile_with : Option (PolicySet M) → Workload → Control → Control
  reconcile_with none current s =
      refuse current "no-policy-snapshot" (no_policy_snapshot (key current)) s
  reconcile_with (some set) current s =
      reconcile_matched (match_policy M set current.kind current.name current.labels) current s

  -- `reconcileOne`
  unfoldable pub reconcile_one : Workload → Control → Control
  reconcile_one current s =
      let (set, w) = O.current s.world in
      reconcile_with set current (record { world = w; deeds = looked_up set ∷ s.deeds })

  -- `return` out of both loops of `reconcileAll`, or the rest of them.
  abbrev pub unless_ended : Bool → Control → Bool × Control → Bool × Control
  unless_ended true s rest = (true, s)
  unless_ended false s rest = rest

  unfoldable pub reconcile_items : List Workload → Control → Bool × Control
  reconcile_items [] s = (false, s)
  reconcile_items (current ∷ rest) s =
      let (ended, w) = O.is_cancelled s.world in
      let s' : Control = record s { world = w } in
      unless_ended ended s' (reconcile_items rest (reconcile_one current s'))

  abbrev pub reconcile_listed :
      Kind → Result O.Failure (List Workload) × O.World → List (Deed M O.Failure) → Bool × Control
  reconcile_listed kind (err f, w) deeds =
      (false, record { world = w; deeds = handled (list_failed kind f) ∷ listed kind none ∷ deeds })
  reconcile_listed kind (ok items, w) deeds =
      reconcile_items items (record { world = w; deeds = listed kind (some items) ∷ deeds })

  unfoldable pub reconcile_kinds : List Kind → Control → Bool × Control
  reconcile_kinds [] s = (false, s)
  reconcile_kinds (kind ∷ rest) s =
      let (ended, s') = reconcile_listed kind (O.list kind s.world) s.deeds in
      unless_ended ended s' (reconcile_kinds rest s')

  -- `reconcileAll`
  unfoldable pub reconcile_all : Control → Control
  reconcile_all s = (reconcile_kinds all_kinds s).1

  abbrev pub reconcile_if_set : Option Workload → Control → Control
  reconcile_if_set none s = s
  reconcile_if_set (some current) s = reconcile_one current s

  unfoldable pub handle_request : Request → Control → Control
  handle_request request s =
      if request.full then reconcile_all s else reconcile_if_set request.workload s

  -- The loop of `Run`, and what is deferred to its end.
  unfoldable pub run_loop : List RunTurn → Control → Control
  run_loop [] s = s
  run_loop (run_cancelled ∷ rest) s = note stopped s
  run_loop (ticked ∷ rest) s = run_loop rest (reconcile_all s)
  run_loop (requested request ∷ rest) s = run_loop rest (handle_request request s)

  -- `Run`
  unfoldable pub run : List RunTurn → Control → Control
  run turns s = run_loop turns (reconcile_all (note started s))
