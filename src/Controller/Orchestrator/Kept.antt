-- ===== src/Controller/Orchestrator/Kept.antt =====
-- What each call of internal/controller/orchestrator.go keeps of the world, a whole run keeps.
use kube_workload_lm.Base.{
  Bool, true, false, Option, none, some, List, [], ◌∷◌, Result, ok, err, Bool-cases, inl, inr,
}
use kube_workload_lm.Workload.{Kind, Workload}
use kube_workload_lm.Lifecycle.Decision.{Decision}
use kube_workload_lm.Policy.Types.{Matchers, Policy, PolicySet}
use kube_workload_lm.Policy.Match.{match_policy, conflict}
use kube_workload_lm.Controller.Orchestrator.{
  Orchestra, Deed, looked_up, Control, RunTurn, run_cancelled, ticked, requested, Request, note,
  started, conclude_reconcile, reconcile_policy, reconcile_with, reconcile_one, unless_ended,
  reconcile_items, reconcile_listed, reconcile_kinds, all_kinds, reconcile_all, reconcile_if_set,
  handle_request, run_loop, run,
}

module _ {M : Matchers} (O : Orchestra M) (P : O.World → Type 0)
    (list_keeps : (kind : Kind) (w : O.World) → P w → P (O.list kind w).1)
    (check_keeps : (w : O.World) → P w → P (O.is_cancelled w).1)
    (current_keeps : (w : O.World) → P w → P (O.current w).1)
    (transition_keeps : (current : Workload) (selected : Policy M) (w : O.World)
      → P w
      → P (O.transition current selected w).1) where
  conclude_kept :
      (current : Workload) (selected : Policy M) (r : (Decision × Option O.Failure) × O.World)
      (deeds : List (Deed M O.Failure))
      → P r.1
      → P (conclude_reconcile O current selected r deeds).world
  conclude_kept current selected ((decision, none), w) deeds h = h
  conclude_kept current selected ((decision, some f), w) deeds h = h

  policy_kept :
      (o : Option (Policy M)) (current : Workload) (s : Control O)
      → P s.world
      → P (reconcile_policy O o current s).world
  policy_kept none current s h = h
  policy_kept (some p) current s h =
      conclude_kept current p (O.transition current p s.world) _
        (transition_keeps current p s.world h)

  with_kept :
      (o : Option (PolicySet M)) (current : Workload) (s : Control O)
      → P s.world
      → P (reconcile_with O o current s).world
  with_kept none current s h = h
  with_kept (some set) current s h =
      let matched = match_policy M set current.kind current.name current.labels in
      elim (Bool-cases (conflict M matched)) [
        | inl c ↦ rw c h
        | inr c ↦ rw c (policy_kept matched.policy current s h)
      ]

  one_kept : (current : Workload) (s : Control O) → P s.world → P (reconcile_one O current s).world
  unfolding reconcile_one
  one_kept current s h =
      let (set, w) = O.current s.world in
      with_kept set current (record { world = w; deeds = looked_up set ∷ s.deeds })
        (current_keeps s.world h)

  unless_ended_kept :
      (b : Bool) (s : Control O) (rest : Bool × Control O)
      → P s.world
      → P rest.1.world
      → P (unless_ended O b s rest).1.world
  unless_ended_kept true s rest h k = h
  unless_ended_kept false s rest h k = k

  items_kept :
      (items : List Workload) (s : Control O) → P s.world → P (reconcile_items O items s).1.world
  unfolding reconcile_items
  items_kept [] s h = h
  items_kept (current ∷ rest) s h =
      let s' : Control O = record s { world = (O.is_cancelled s.world).1 } in
      let k = check_keeps s.world h in
      unless_ended_kept (O.is_cancelled s.world).0 s'
        (reconcile_items O rest (reconcile_one O current s')) k
        (items_kept rest (reconcile_one O current s') (one_kept current s' k))

  listed_kept :
      (kind : Kind) (r : Result O.Failure (List Workload) × O.World)
      (deeds : List (Deed M O.Failure))
      → P r.1
      → P (reconcile_listed O kind r deeds).1.world
  listed_kept kind (err f, w) deeds h = h
  listed_kept kind (ok items, w) deeds h = items_kept items _ h

  kinds_kept :
      (kinds : List Kind) (s : Control O) → P s.world → P (reconcile_kinds O kinds s).1.world
  unfolding reconcile_kinds
  kinds_kept [] s h = h
  kinds_kept (kind ∷ rest) s h =
      let r = reconcile_listed O kind (O.list kind s.world) s.deeds in
      let k = listed_kept kind (O.list kind s.world) s.deeds (list_keeps kind s.world h) in
      unless_ended_kept r.0 r.1 (reconcile_kinds O rest r.1) k (kinds_kept rest r.1 k)

  all_kept : (s : Control O) → P s.world → P (reconcile_all O s).world
  unfolding reconcile_all
  all_kept s h = kinds_kept all_kinds s h

  if_set_kept : (o : Option Workload) (s : Control O) → P s.world → P (reconcile_if_set O o s).world
  if_set_kept none s h = h
  if_set_kept (some current) s h = one_kept current s h

  request_kept :
      (request : Request) (s : Control O) → P s.world → P (handle_request O request s).world
  unfolding handle_request
  request_kept request s h = elim (Bool-cases request.full) [
    | inl full ↦ rw full (all_kept s h)
    | inr one ↦ rw one (if_set_kept request.workload s h)
  ]

  loop_kept : (turns : List RunTurn) (s : Control O) → P s.world → P (run_loop O turns s).world
  unfolding run_loop
  loop_kept [] s h = h
  loop_kept (run_cancelled ∷ rest) s h = h
  loop_kept (ticked ∷ rest) s h = loop_kept rest _ (all_kept s h)
  loop_kept (requested request ∷ rest) s h = loop_kept rest _ (request_kept request s h)

  pub run_kept : (turns : List RunTurn) (s : Control O) → P s.world → P (run O turns s).world
  unfolding run
  run_kept turns s h = loop_kept turns _ (all_kept (note O started s) h)
