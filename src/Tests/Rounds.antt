-- ===== src/Tests/Rounds.antt =====
-- The rounds and the supervisors of the controller, at an inventory with one deployment whose other
-- list fails.
use kube_workload_lm.Base.{
  ℕ, ◌+◌, String, ◌==◌, true, false, none, some, List, [], ◌∷◌, ◌++◌, ok, err, ◌≡◌, refl,
  if◌then◌else◌,
}
use kube_workload_lm.Workload.{kind_deployment}
use kube_workload_lm.Workload.Gateway.{Event, event_added}
use kube_workload_lm.Policy.Watch.{PolicyEvent, event_reloaded}
use kube_workload_lm.Controller.Transition.{zero_decision}
use kube_workload_lm.Controller.Orchestrator.{
  Orchestra, Control, RunTurn, run_cancelled, ticked, requested, run, reconcile_kinds, all_kinds,
}
use kube_workload_lm.Controller.Orchestrator.Accountable.{IsAccountable, run-IsAccountable}
use kube_workload_lm.Controller.Orchestrator.Rounds.{
  observed_in, listed_in, kinds_in, rev_onto, reconcile_kinds_observes,
}
use kube_workload_lm.Controller.Supervisor.{
  Answer, cancelled, woken, closed, opened, refused, event, supervise, new_supervisor,
  workload_supervision, hpa_supervision, policy_supervision,
}
use kube_workload_lm.Controller.Supervisor.Streams.{
  IsBalanced, IsGone, supervise-IsBalanced, supervise-IsGone,
}
use kube_workload_lm.Tests.Cluster.{toy_matchers, policies, web}

-- The transitions fail; the world counts them.
abbrev orchestra : Orchestra toy_matchers
orchestra = record {
  World = ℕ;
  Failure = String;
  list = λ kind n. (if kind == kind_deployment then ok (web ∷ web ∷ []) else err "timeout", n);
  is_cancelled = λ n. (false, n);
  current = λ n. (some policies, n);
  transition = λ current selected n. ((zero_decision, some "timeout"), n + 1);
}

abbrev silent : Control orchestra
silent = record { world = 0; deeds = [] }

abbrev pub turns : List RunTurn
turns =
    ticked
    ∷ requested (record { workload = some web; full = false })
    ∷ requested (record { workload = none; full = true })
    ∷ run_cancelled
    ∷ []

run-IsAccountable_example : IsAccountable (run orchestra turns silent).deeds
run-IsAccountable_example = run-IsAccountable orchestra turns silent (tt, tt)

reconcile_kinds_observes_example :
    (listed_in (reconcile_kinds orchestra all_kinds silent).1.deeds
      ≡ observed_in (reconcile_kinds orchestra all_kinds silent).1.deeds)
    × (kinds_in (reconcile_kinds orchestra all_kinds silent).1.deeds ≡ rev_onto all_kinds [])
reconcile_kinds_observes_example = reconcile_kinds_observes orchestra (λ n. refl) silent refl

abbrev added_web : Event String
added_web = record { type = event_added; kind = kind_deployment; workload = some web; error = none }

abbrev reloaded : PolicyEvent String
reloaded = record { type = event_reloaded; error = none }

-- A start that is refused, a stream with an event and its end, and another stream.
abbrev answers : {E : Type 0} → E → List (Answer E String)
answers e =
    refused "timeout" ∷ woken ∷ opened ∷ event e true ∷ closed ∷ woken ∷ opened ∷ event e false ∷ []

supervise-IsBalanced_example :
    IsBalanced (supervise workload_supervision (answers added_web) new_supervisor)
    × IsBalanced (supervise (hpa_supervision {F = String}) [] new_supervisor)
    × IsBalanced (supervise policy_supervision (answers reloaded) new_supervisor)
supervise-IsBalanced_example = supervise-IsBalanced (answers added_web) [] (answers reloaded)

supervise-IsGone_example :
    IsGone (supervise workload_supervision (answers added_web ++ (cancelled ∷ [])) new_supervisor)
    × IsGone (supervise (hpa_supervision {F = String}) ([] ++ (cancelled ∷ [])) new_supervisor)
    × IsGone (
        supervise policy_supervision (answers reloaded ++ (cancelled ∷ opened ∷ [])) new_supervisor)
supervise-IsGone_example =
    supervise-IsGone (answers added_web) [] [] [] (answers reloaded) (opened ∷ [])
