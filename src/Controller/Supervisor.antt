-- ===== src/Controller/Supervisor.antt =====
-- internal/controller/orchestrator.go: the goroutines that supervise the three watches, each as a
-- machine that moves with the answers that it waits for. What it does is logged, newest first.
pub mod Streams
use kube_workload_lm.Base.{Bool, true, false, Option, none, some, List, [], ◌∷◌, ◌++◌}
use kube_workload_lm.Workload.{Workload}
use kube_workload_lm.Workload.Gateway.{
  EventType, event_added, event_modified, event_deleted, event_error, event_disconnected, Event,
  GatewayError,
}
use kube_workload_lm.Workload.Hpa.Watch.{HpaEvent, HpaWatchError}
use kube_workload_lm.Policy.Watch.{
  PolicyEventType, event_reloaded, event_reload_rejected, PolicyEvent, PolicyWatchError,
  watch_disconnected as policy_watch_disconnected, event_deleted as policy_event_deleted,
  event_error as policy_event_error, event_disconnected as policy_event_disconnected,
}
use kube_workload_lm.Controller.Orchestrator.{Request}

-- What the error handler is given; the error of an event may be nil.
pub data WatchProblem (F : Type 0) : Type 0 where
  start_workload_watch start_hpa_watch start_policy_watch : F → WatchProblem F
  workloads_disconnected hpa_disconnected policies_disconnected : WatchProblem F
  workload_event : Option (GatewayError F) → WatchProblem F
  hpa_event : Option (HpaWatchError F) → WatchProblem F
  policy_event : Option (PolicyWatchError F) → WatchProblem F

pub data Act (F : Type 0) : Type 0 where
  opened_stream stopped_stream : Act F
  asked : Request → Act F
  reported : WatchProblem F → Act F
  observed_policy_event : PolicyEvent F → Act F

-- Where a supervisor waits: for the start of a watch, for an event, for the delay to pass.
pub data Phase : Type 0 where
  starting streaming pausing returned : Phase

-- What it may get there. An event comes with whether the request for it, if any, was taken before the
-- context ended.
pub data Answer (E F : Type 0) : Type 0 where
  cancelled woken closed opened : Answer E F
  refused : F → Answer E F
  event : E → Bool → Answer E F

-- What an event leads to.
pub data Reaction (F : Type 0) : Type 0 where
  ask : Request → Reaction F
  report restart : WatchProblem F → Reaction F
  ignore : Reaction F

-- What sets the three supervisors apart.
pub record Supervision (E F : Type 0) : Type 0 where
  pub start_failed : F → WatchProblem F
  -- when the channel is closed, newest first
  pub on_closed : List (Act F)
  pub on_event : E → List (Act F)
  pub react : E → Reaction F

pub record Supervisor (F : Type 0) : Type 0 where
  pub phase : Phase
  pub acts : List (Act F)

abbrev pub full_request : Request
full_request = record { workload = none; full = true }

module _ {E F : Type 0} (V : Supervision E F) where
  -- `sendRequest`, and the end of the goroutine where it was refused.
  abbrev pub sent : Request → Bool → List (Act F) → Supervisor F
  sent request true acts = record { phase = streaming; acts = asked request ∷ acts }
  sent request false acts = record { phase = returned; acts = stopped_stream ∷ acts }

  abbrev pub reacted : Reaction F → Bool → List (Act F) → Supervisor F
  reacted (ask request) taken acts = sent request taken acts
  reacted (report problem) taken acts = record { phase = streaming; acts = reported problem ∷ acts }
  reacted (restart problem) taken acts = record {
    phase = pausing;
    acts = stopped_stream ∷ reported problem ∷ acts;
  }
  reacted ignore taken acts = record { phase = streaming; acts = acts }

  -- One wait of the goroutine; an answer that it does not wait for there changes nothing.
  abbrev pub advance_from : Phase → Answer E F → List (Act F) → Supervisor F
  advance_from starting cancelled acts = record { phase = returned; acts = acts }
  advance_from starting (refused f) acts = record {
    phase = pausing;
    acts = reported (V.start_failed f) ∷ acts;
  }
  advance_from starting opened acts = record { phase = streaming; acts = opened_stream ∷ acts }
  advance_from streaming cancelled acts = record { phase = returned; acts = stopped_stream ∷ acts }
  advance_from streaming closed acts = record {
    phase = pausing;
    acts = stopped_stream ∷ (V.on_closed ++ acts);
  }
  advance_from streaming (event e taken) acts = reacted (V.react e) taken (V.on_event e ++ acts)
  advance_from pausing cancelled acts = record { phase = returned; acts = acts }
  advance_from pausing woken acts = record { phase = starting; acts = acts }
  advance_from phase answer acts = record { phase = phase; acts = acts }

  unfoldable pub advance : Supervisor F → Answer E F → Supervisor F
  advance s answer = advance_from s.phase answer s.acts

  -- The goroutine with the answers that it gets.
  unfoldable pub supervise : List (Answer E F) → Supervisor F → Supervisor F
  supervise [] s = s
  supervise (answer ∷ rest) s = supervise rest (advance s answer)

abbrev pub new_supervisor : {F : Type 0} → Supervisor F
new_supervisor = record { phase = starting; acts = [] }

abbrev pub workload_request : {F : Type 0} → Option Workload → Reaction F
workload_request none = ignore
workload_request (some w) = ask (record { workload = some w; full = false })

module _ {F : Type 0} where
  abbrev pub react_workload : EventType → Event F → Reaction F
  react_workload event_added e = workload_request e.workload
  react_workload event_modified e = workload_request e.workload
  react_workload event_deleted e = ask full_request
  react_workload event_error e = restart (workload_event e.error)
  react_workload event_disconnected e = restart (workload_event e.error)

  -- `superviseWorkloads`
  unfoldable pub workload_supervision : Supervision (Event F) F
  workload_supervision = record {
    start_failed = start_workload_watch;
    on_closed = reported workloads_disconnected ∷ [];
    on_event = λ e. [];
    react = λ e. react_workload e.type e;
  }

  abbrev pub react_hpa : EventType → HpaEvent F → Reaction F
  react_hpa event_error e = restart (hpa_event e.error)
  react_hpa event_disconnected e = restart (hpa_event e.error)
  react_hpa type e = ask full_request

  -- `superviseHPA`
  unfoldable pub hpa_supervision : Supervision (HpaEvent F) F
  hpa_supervision = record {
    start_failed = start_hpa_watch;
    on_closed = reported hpa_disconnected ∷ [];
    on_event = λ e. [];
    react = λ e. react_hpa e.type e;
  }

  abbrev pub react_policy : PolicyEventType → PolicyEvent F → Reaction F
  react_policy event_reloaded e = ask full_request
  react_policy policy_event_deleted e = ask full_request
  react_policy event_reload_rejected e = report (policy_event e.error)
  react_policy policy_event_error e = restart (policy_event e.error)
  react_policy policy_event_disconnected e = restart (policy_event e.error)

  -- `supervisePolicies`
  unfoldable pub policy_supervision : Supervision (PolicyEvent F) F
  policy_supervision = record {
    start_failed = start_policy_watch;
    on_closed =
        reported policies_disconnected
        ∷ observed_policy_event
            (record { type = policy_event_disconnected; error = some policy_watch_disconnected })
        ∷ [];
    on_event = λ e. observed_policy_event e ∷ [];
    react = λ e. react_policy e.type e;
  }
