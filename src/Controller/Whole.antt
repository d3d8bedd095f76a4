-- ===== src/Controller/Whole.antt =====
-- The controller as cmd/controller/main.go puts it together: the rounds of orchestrator.go with the
-- transition of transition.go, over one world.
use kube_workload_lm.Base.{Bool, Option, none, some, List, Result, wrap}
use kube_workload_lm.Workload.{Kind, Workload}
use kube_workload_lm.Lifecycle.Decision.{Decision}
use kube_workload_lm.Lifecycle.Revision.{Hasher}
use kube_workload_lm.Schedule.Calendar.{Zones}
use kube_workload_lm.Policy.Types.{Matchers, PolicySet}
use kube_workload_lm.Controller.Effects.{Collaborators, Machine, TransitionError}
use kube_workload_lm.Controller.Transition.{Outcome, reconcile}
use kube_workload_lm.Controller.Durable.{IsGuarded, ReadsCopy}
use kube_workload_lm.Controller.Durable.Whole.{reconcile-IsGuarded}
use kube_workload_lm.Controller.Orchestrator.{Orchestra, Control, RunTurn, run}
use kube_workload_lm.Controller.Orchestrator.Kept.{run_kept}

-- The inventory, the context and the policy manager, over the world of the collaborators.
pub record Surroundings (C : Collaborators) (M : Matchers) : Type 0 where
  pub list : Kind → C.World → Result C.Failure (List Workload) × C.World
  pub is_cancelled : C.World → Bool × C.World
  pub current : C.World → Option (PolicySet M) × C.World

pub data ControllerError (F : Type 0) : Type 0 where
  in_list : F → ControllerError F
  in_transition : TransitionError F → ControllerError F

abbrev failed_transition : {F : Type 0} → Option (TransitionError F) → Option (ControllerError F)
failed_transition none = none
failed_transition (some e) = some (in_transition e)

module _ (C : Collaborators) (H : Hasher) (Z : Zones) {M : Matchers} (S : Surroundings C M) where
  abbrev moved_to : {A : Type 0} → Machine C → A × C.World → A × Machine C
  moved_to s (a, w) = (a, record s { world = w })

  abbrev listed_in_world :
      Result C.Failure (List Workload) × Machine C
      → Result (ControllerError C.Failure) (List Workload) × Machine C
  listed_in_world (r, s) = (wrap in_list r, s)

  abbrev concluded :
      Outcome C × Machine C → (Decision × Option (ControllerError C.Failure)) × Machine C
  concluded ((decision, error), s) = ((decision, failed_transition error), s)

  -- What `NewController` is given: the inventory, the policies, and the reconciler.
  abbrev pub controller : Orchestra M
  controller = record {
    World = Machine C;
    Failure = ControllerError C.Failure;
    list = λ kind s. listed_in_world (moved_to s (S.list kind s.world));
    is_cancelled = λ s. moved_to s (S.is_cancelled s.world);
    current = λ s. moved_to s (S.current s.world);
    transition = λ current selected s. concluded (reconcile C H Z current selected s);
  }

  -- If Read returns a copy of the workload: however the turns of a run fall out, and whichever calls
  -- fail, the controller writes the scale of a workload only while the newest document that the store
  -- has loaded or saved holds a replica snapshot for it, provided that the writes logged before were
  -- of that kind too.
  pub run-IsGuarded :
      (turns : List RunTurn) (s : Control controller)
      → ReadsCopy C
      → IsGuarded s.world.calls
      → IsGuarded (run controller turns s).world.calls
  run-IsGuarded turns s copies h =
      run_kept controller (λ m. IsGuarded m.calls) (λ kind m h. h) (λ m h. h) (λ m h. h)
        (λ current selected m h. reconcile-IsGuarded C H Z current selected m copies h) turns s h
