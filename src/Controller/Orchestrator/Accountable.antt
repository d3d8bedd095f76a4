-- ===== src/Controller/Orchestrator/Accountable.antt =====
-- What the rounds of internal/controller/orchestrator.go do is accounted for: each transition by the
-- choice of its policy, each observation by what came before it, each error by its observation.
use kube_workload_lm.Base.{
  String, ◌==◌, Bool, true, false, Option, none, some, List, [], ◌∷◌, Result, ok, err, ◌≡◌, ◌⊎◌,
  inl, inr, refl, if◌then◌else◌, Bool-cases,
}
use kube_workload_lm.Workload.{Kind, Workload, key}
use kube_workload_lm.Lifecycle.Decision.{Decision}
use kube_workload_lm.Policy.Types.{Matchers, Policy, PolicySet}
use kube_workload_lm.Policy.Match.{MatchResult, match_policy, conflict}
use kube_workload_lm.Controller.Orchestrator.{
  Orchestra, ControlError, list_failed, ReconcileObservation, Deed, listed, looked_up, transitioned,
  observed, handled, started, transition_error, no_policy_snapshot, policy_conflict,
  transition_failed, Request, RunTurn, run_cancelled, ticked, requested, Control, note,
  conclude_reconcile, reconcile_policy, reconcile_with, reconcile_one, unless_ended,
  reconcile_items, reconcile_listed, reconcile_kinds, all_kinds, reconcile_all, reconcile_if_set,
  handle_request, run_loop, run,
}

abbrev matched_by : {M : Matchers} → PolicySet M → Workload → MatchResult M
matched_by {M} set w = match_policy M set w.kind w.name w.labels

module _ {F : Type 0} where
  -- The observation of a failure, with its reason and error.
  abbrev IsFailure : ReconcileObservation F → String → ControlError F → Type 0
  IsFailure o reason e = (o.result ≡ "error") × (o.reason ≡ reason) × (o.error ≡ some e)

  -- What is observed of a transition, by its decision and its error.
  abbrev IsOutcome : ReconcileObservation F → Decision → Option F → Type 0
  IsOutcome o d none = (o.result ≡ "success") × (o.reason ≡ d.reason) × (o.error ≡ none)
  IsOutcome o d (some f) =
      IsFailure o (if d.reason == "" then "transition-error" else d.reason) (transition_error f)

module _ {M : Matchers} {F : Type 0} where
  -- The policy of a transition is the one that the newest policy set chooses for the workload.
  abbrev IsChosen : Workload → Policy M → List (Deed M F) → Type 0
  IsChosen w p (looked_up (some set) ∷ older) =
      (conflict M (matched_by set w) ≡ false) × ((matched_by set w).policy ≡ some p)
  IsChosen w p other = true ≡ false

  -- What was observed is what came just before.
  abbrev IsExplained : ReconcileObservation F → List (Deed M F) → Type 0
  IsExplained o (transitioned w p d f ∷ older) =
      (w ≡ o.workload) × (p.name ≡ o.policy) × (d ≡ o.decision) × IsOutcome o d f
  IsExplained o (looked_up none ∷ older) =
      IsFailure o "no-policy-snapshot" (no_policy_snapshot (key o.workload))
  IsExplained o (looked_up (some set) ∷ older) =
      let matched = matched_by set o.workload in
      ((conflict M matched ≡ true)
        × IsFailure o "policy-conflict" (policy_conflict (key o.workload) matched.conflict_names))
      ⊎ ((conflict M matched ≡ false)
          × (matched.policy ≡ none)
          × (o.result ≡ "skipped")
          × (o.reason ≡ "no-matching-policy")
          × (o.error ≡ none))
  IsExplained o other = true ≡ false

  -- An error is handled just after the failed list, or the observation, that it is of.
  abbrev IsReported : ControlError F → List (Deed M F) → Type 0
  IsReported (list_failed kind f) (listed k none ∷ older) = kind ≡ k
  IsReported (transition_failed k f) (observed o ∷ older) =
      (o.error ≡ some (transition_error f)) × (k ≡ key o.workload)
  IsReported (no_policy_snapshot k) (observed o ∷ older) = o.error ≡ some (no_policy_snapshot k)
  IsReported (policy_conflict k names) (observed o ∷ older) =
      o.error ≡ some (policy_conflict k names)
  IsReported e other = true ≡ false

  -- Nothing is owed: no observation after a look-up or a transition, and no call of the error handler
  -- after a failed list or the observation of a failure.
  abbrev IsQuiet : List (Deed M F) → Type 0
  IsQuiet (looked_up o ∷ older) = true ≡ false
  IsQuiet (transitioned w p d f ∷ older) = true ≡ false
  IsQuiet (listed k none ∷ older) = true ≡ false
  IsQuiet (observed o ∷ older) = o.error ≡ none
  IsQuiet other = Unit

  abbrev IsDue : Deed M F → List (Deed M F) → Type 0
  IsDue (transitioned w p d f) older = IsChosen w p older
  IsDue (observed o) older = IsExplained o older
  IsDue (handled e) older = IsReported e older
  IsDue deed older = IsQuiet older

  abbrev AreDue : List (Deed M F) → Type 0
  AreDue [] = Unit
  AreDue (deed ∷ older) = IsDue deed older × AreDue older

  -- Each deed is accounted for by the ones before it, and at the end nothing is owed.
  abbrev pub IsAccountable : List (Deed M F) → Type 0
  IsAccountable deeds = IsQuiet deeds × AreDue deeds

module _ {M : Matchers} (O : Orchestra M) where
  conclude_reconcile-IsAccountable :
      (current : Workload) (selected : Policy M) (r : (Decision × Option O.Failure) × O.World)
      (deeds : List (Deed M O.Failure))
      → IsChosen current selected deeds
      → AreDue deeds
      → IsAccountable
          (conclude_reconcile O current selected r
            (transitioned current selected r.0.0 r.0.1 ∷ deeds)).deeds
  conclude_reconcile-IsAccountable current selected ((decision, none), w) deeds c h =
      (refl, ((refl, refl, refl, (refl, refl, refl)), (c, h)))
  conclude_reconcile-IsAccountable current selected ((decision, some f), w) deeds c h =
      (tt, ((refl, refl), ((refl, refl, refl, (refl, refl, refl)), (c, h))))

  reconcile_policy-IsAccountable :
      (set : PolicySet M) (current : Workload) (o : Option (Policy M)) (w : O.World)
      (older : List (Deed M O.Failure))
      → conflict M (matched_by set current) ≡ false
      → (matched_by set current).policy ≡ o
      → IsAccountable older
      → IsAccountable
          (reconcile_policy O o current
            (record { world = w; deeds = looked_up (some set) ∷ older })).deeds
  reconcile_policy-IsAccountable set current none w older c m h =
      (refl, (inr (c, m, refl, refl, refl), h))
  reconcile_policy-IsAccountable set current (some p) w older c m h =
      conclude_reconcile-IsAccountable current p (O.transition current p w)
        (looked_up (some set) ∷ older) (c, m) h

  reconcile_with-IsAccountable :
      (o : Option (PolicySet M)) (current : Workload) (w : O.World)
      (deeds : List (Deed M O.Failure))
      → IsAccountable deeds
      → IsAccountable
          (reconcile_with O o current (record { world = w; deeds = looked_up o ∷ deeds })).deeds
  reconcile_with-IsAccountable none current w deeds h = (tt, (refl, ((refl, refl, refl), h)))
  reconcile_with-IsAccountable (some set) current w deeds h =
      elim (Bool-cases (conflict M (matched_by set current))) [
        | inl c ↦ rw c (tt, (refl, (inl (c, (refl, refl, refl)), h)))
        | inr c ↦ rw c (
            reconcile_policy-IsAccountable set current (matched_by set current).policy w deeds c
              refl h)
      ]

  pub reconcile_one-IsAccountable :
      (current : Workload) (s : Control O)
      → IsAccountable s.deeds
      → IsAccountable (reconcile_one O current s).deeds
  unfolding reconcile_one
  reconcile_one-IsAccountable current s h =
      reconcile_with-IsAccountable (O.current s.world).0 current (O.current s.world).1 s.deeds h

  unless_ended-IsAccountable :
      (b : Bool) (s : Control O) (rest : Bool × Control O)
      → IsAccountable s.deeds
      → (IsAccountable s.deeds → IsAccountable rest.1.deeds)
      → IsAccountable (unless_ended O b s rest).1.deeds
  unless_ended-IsAccountable true s rest h k = h
  unless_ended-IsAccountable false s rest h k = k h

  reconcile_items-IsAccountable :
      (items : List Workload) (s : Control O)
      → IsAccountable s.deeds
      → IsAccountable (reconcile_items O items s).1.deeds
  unfolding reconcile_items
  reconcile_items-IsAccountable [] s h = h
  reconcile_items-IsAccountable (current ∷ rest) s h =
      let s' : Control O = record s { world = (O.is_cancelled s.world).1 } in
      let next = reconcile_one O current s' in
      unless_ended-IsAccountable (O.is_cancelled s.world).0 s' (reconcile_items O rest next) h
        λ h. reconcile_items-IsAccountable rest next (reconcile_one-IsAccountable current s' h)

  reconcile_listed-IsAccountable :
      (kind : Kind) (r : Result O.Failure (List Workload) × O.World)
      (deeds : List (Deed M O.Failure))
      → IsAccountable deeds
      → IsAccountable (reconcile_listed O kind r deeds).1.deeds
  reconcile_listed-IsAccountable kind (err f, w) deeds h = (tt, (refl, h))
  reconcile_listed-IsAccountable kind (ok items, w) deeds h =
      reconcile_items-IsAccountable items _ (tt, h)

  reconcile_kinds-IsAccountable :
      (kinds : List Kind) (s : Control O)
      → IsAccountable s.deeds
      → IsAccountable (reconcile_kinds O kinds s).1.deeds
  unfolding reconcile_kinds
  reconcile_kinds-IsAccountable [] s h = h
  reconcile_kinds-IsAccountable (kind ∷ rest) s h =
      let r = reconcile_listed O kind (O.list kind s.world) s.deeds in
      unless_ended-IsAccountable r.0 r.1 (reconcile_kinds O rest r.1)
        (reconcile_listed-IsAccountable kind (O.list kind s.world) s.deeds h)
        λ h. reconcile_kinds-IsAccountable rest r.1 h

  reconcile_all-IsAccountable :
      (s : Control O) → IsAccountable s.deeds → IsAccountable (reconcile_all O s).deeds
  unfolding reconcile_all
  reconcile_all-IsAccountable s h = reconcile_kinds-IsAccountable all_kinds s h

  reconcile_if_set-IsAccountable :
      (o : Option Workload) (s : Control O)
      → IsAccountable s.deeds
      → IsAccountable (reconcile_if_set O o s).deeds
  reconcile_if_set-IsAccountable none s h = h
  reconcile_if_set-IsAccountable (some current) s h = reconcile_one-IsAccountable current s h

  handle_request-IsAccountable :
      (request : Request) (s : Control O)
      → IsAccountable s.deeds
      → IsAccountable (handle_request O request s).deeds
  unfolding handle_request
  handle_request-IsAccountable request s h = elim (Bool-cases request.full) [
    | inl full ↦ rw full (reconcile_all-IsAccountable s h)
    | inr one ↦ rw one (reconcile_if_set-IsAccountable request.workload s h)
  ]

  run_loop-IsAccountable :
      (turns : List RunTurn) (s : Control O)
      → IsAccountable s.deeds
      → IsAccountable (run_loop O turns s).deeds
  unfolding run_loop
  run_loop-IsAccountable [] s h = h
  run_loop-IsAccountable (run_cancelled ∷ rest) s h = (tt, h)
  run_loop-IsAccountable (ticked ∷ rest) s h =
      run_loop-IsAccountable rest _ (reconcile_all-IsAccountable s h)
  run_loop-IsAccountable (requested request ∷ rest) s h =
      run_loop-IsAccountable rest _ (handle_request-IsAccountable request s h)

  -- However the turns of a run fall out, from an accountable log it comes to one: a transition runs
  -- only under the policy that the newest policy set chose for that workload, without a conflict; each
  -- look-up is followed at once by a transition or an observation, and each transition by its
  -- observation, with the reason, the decision and the error that it came to, and as a success exactly
  -- if the transition has returned no error; each failed list and each observed error is reported to
  -- the error handler at once, and nothing else is.
  pub run-IsAccountable :
      (turns : List RunTurn) (s : Control O)
      → IsAccountable s.deeds
      → IsAccountable (run O turns s).deeds
  unfolding run
  run-IsAccountable turns s h =
      run_loop-IsAccountable turns _ (reconcile_all-IsAccountable (note O started s) (tt, h))
