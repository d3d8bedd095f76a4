-- ===== src/Controller/Orchestrator/Rounds.antt =====
-- A round of internal/controller/orchestrator.go (`reconcileAll`): it lists each kind, also after a
-- list that failed, and makes one observation of each workload that it listed, in their order.
use kube_workload_lm.Base.{
  Bool, true, false, Option, none, some, List, [], ◌∷◌, Result, ok, err, ◌≡◌, refl, ap, sym, ◌∙◌,
  arith, Bool-cases, inl, inr,
}
use kube_workload_lm.Workload.{Kind, Workload}
use kube_workload_lm.Lifecycle.Decision.{Decision}
use kube_workload_lm.Policy.Types.{Matchers, Policy, PolicySet}
use kube_workload_lm.Policy.Match.{match_policy, conflict}
use kube_workload_lm.Controller.Orchestrator.{
  Orchestra, Deed, listed, looked_up, transitioned, observed, handled, started, stopped, Control,
  conclude_reconcile, reconcile_policy, reconcile_with, reconcile_one, unless_ended,
  reconcile_items, reconcile_listed, reconcile_kinds, all_kinds,
}

-- The first list, last element first, before the second.
abbrev pub rev_onto {ℓ} : {A : Type ℓ} → List A → List A → List A
rev_onto [] ys = ys
rev_onto (x ∷ xs) ys = rev_onto xs (x ∷ ys)

abbrev or_nothing : Option (List Workload) → List Workload
or_nothing none = []
or_nothing (some items) = items

module _ {M : Matchers} {F : Type 0} where
  abbrev pub observed_in : List (Deed M F) → List Workload
  observed_in [] = []
  observed_in (observed o ∷ older) = o.workload ∷ observed_in older
  observed_in (listed k o ∷ older) = observed_in older
  observed_in (looked_up o ∷ older) = observed_in older
  observed_in (transitioned w p d f ∷ older) = observed_in older
  observed_in (handled e ∷ older) = observed_in older
  observed_in (started ∷ older) = observed_in older
  observed_in (stopped ∷ older) = observed_in older

  abbrev pub listed_in : List (Deed M F) → List Workload
  listed_in [] = []
  listed_in (listed k o ∷ older) = rev_onto (or_nothing o) (listed_in older)
  listed_in (observed o ∷ older) = listed_in older
  listed_in (looked_up o ∷ older) = listed_in older
  listed_in (transitioned w p d f ∷ older) = listed_in older
  listed_in (handled e ∷ older) = listed_in older
  listed_in (started ∷ older) = listed_in older
  listed_in (stopped ∷ older) = listed_in older

  abbrev pub kinds_in : List (Deed M F) → List Kind
  kinds_in [] = []
  kinds_in (listed k o ∷ older) = k ∷ kinds_in older
  kinds_in (observed o ∷ older) = kinds_in older
  kinds_in (looked_up o ∷ older) = kinds_in older
  kinds_in (transitioned w p d f ∷ older) = kinds_in older
  kinds_in (handled e ∷ older) = kinds_in older
  kinds_in (started ∷ older) = kinds_in older
  kinds_in (stopped ∷ older) = kinds_in older

  -- One workload was observed, and nothing listed.
  abbrev Grows : Workload → List (Deed M F) → List (Deed M F) → Type 0
  Grows w before after =
      (observed_in after ≡ w ∷ observed_in before)
      × (listed_in after ≡ listed_in before)
      × (kinds_in after ≡ kinds_in before)

module _ {M : Matchers} (O : Orchestra M) where
  conclude_reconcile-Grows :
      (current : Workload) (selected : Policy M) (r : (Decision × Option O.Failure) × O.World)
      (deeds : List (Deed M O.Failure))
      → Grows current deeds (conclude_reconcile O current selected r deeds).deeds
  conclude_reconcile-Grows current selected ((decision, none), w) deeds = (refl, refl, refl)
  conclude_reconcile-Grows current selected ((decision, some f), w) deeds = (refl, refl, refl)

  reconcile_policy-Grows :
      (o : Option (Policy M)) (current : Workload) (s : Control O)
      → Grows current s.deeds (reconcile_policy O o current s).deeds
  reconcile_policy-Grows none current s = (refl, refl, refl)
  reconcile_policy-Grows (some p) current s =
      let answer = O.transition current p s.world in
      conclude_reconcile-Grows current p answer
        (transitioned current p answer.0.0 answer.0.1 ∷ s.deeds)

  reconcile_with-Grows :
      (o : Option (PolicySet M)) (current : Workload) (s : Control O)
      → Grows current s.deeds (reconcile_with O o current s).deeds
  reconcile_with-Grows none current s = (refl, refl, refl)
  reconcile_with-Grows (some set) current s =
      let matched = match_policy M set current.kind current.name current.labels in
      elim (Bool-cases (conflict M matched)) [
        | inl c ↦ rw c (refl, refl, refl)
        | inr c ↦ rw c (reconcile_policy-Grows matched.policy current s)
      ]

  -- A reconciliation makes exactly one observation, of its workload.
  reconcile_one-Grows :
      (current : Workload) (s : Control O) → Grows current s.deeds (reconcile_one O current s).deeds
  unfolding reconcile_one
  reconcile_one-Grows current s =
      let (set, w) = O.current s.world in
      reconcile_with-Grows set current (record { world = w; deeds = looked_up set ∷ s.deeds })

  -- The workloads that are yet to be observed, and the kinds that were listed.
  abbrev Pending : List Workload → List Kind → Control O → Type 0
  Pending items kinds s =
      (listed_in s.deeds ≡ rev_onto items (observed_in s.deeds)) × (kinds_in s.deeds ≡ kinds)

  reconcile_one-Pending :
      (current : Workload) (rest : List Workload) (kinds : List Kind) (s : Control O)
      → Pending (current ∷ rest) kinds s
      → Pending rest kinds (reconcile_one O current s)
  reconcile_one-Pending current rest kinds s h =
      let (o, l, k) = reconcile_one-Grows current s in
      (l ∙ h.0 ∙ ap (rev_onto rest) (sym o), k ∙ h.1)

  unless_ended-Pending :
      (kinds : List Kind) (b : Bool) (s : Control O) (rest : Bool × Control O)
      → (b ≡ false → rest.0 ≡ false → Pending [] kinds rest.1)
      → (unless_ended O b s rest).0 ≡ false
      → Pending [] kinds (unless_ended O b s rest).1
  unless_ended-Pending kinds true s rest h e = grind arith
  unless_ended-Pending kinds false s rest h e = h refl e

  reconcile_items-Pending :
      (items : List Workload) (kinds : List Kind) (s : Control O)
      → Pending items kinds s
      → (reconcile_items O items s).0 ≡ false
      → Pending [] kinds (reconcile_items O items s).1
  unfolding reconcile_items
  reconcile_items-Pending [] kinds s h e = h
  reconcile_items-Pending (current ∷ rest) kinds s h e =
      let s' : Control O = record s { world = (O.is_cancelled s.world).1 } in
      let next = reconcile_one O current s' in
      unless_ended-Pending kinds (O.is_cancelled s.world).0 s' (reconcile_items O rest next)
        (λ _ e.
          reconcile_items-Pending rest kinds next (reconcile_one-Pending current rest kinds s' h) e)
        e

  reconcile_listed-Pending :
      (kind : Kind) (kinds : List Kind) (r : Result O.Failure (List Workload) × O.World)
      (deeds : List (Deed M O.Failure))
      → (listed_in deeds ≡ observed_in deeds) × (kinds_in deeds ≡ kinds)
      → (reconcile_listed O kind r deeds).0 ≡ false
      → Pending [] (kind ∷ kinds) (reconcile_listed O kind r deeds).1
  reconcile_listed-Pending kind kinds (err f, w) deeds h e = (h.0, ap (λ l. kind ∷ l) h.1)
  reconcile_listed-Pending kind kinds (ok items, w) deeds h e =
      reconcile_items-Pending items (kind ∷ kinds) _
        (ap (rev_onto items) h.0, ap (λ l. kind ∷ l) h.1) e

  reconcile_kinds-Pending :
      (kinds tried : List Kind) (s : Control O)
      → Pending [] tried s
      → (reconcile_kinds O kinds s).0 ≡ false
      → Pending [] (rev_onto kinds tried) (reconcile_kinds O kinds s).1
  unfolding reconcile_kinds
  reconcile_kinds-Pending [] tried s h e = h
  reconcile_kinds-Pending (kind ∷ rest) tried s h e =
      let r = reconcile_listed O kind (O.list kind s.world) s.deeds in
      unless_ended-Pending (rev_onto rest (kind ∷ tried)) r.0 r.1 (reconcile_kinds O rest r.1)
        (λ c e.
          reconcile_kinds-Pending rest (kind ∷ tried) r.1
            (reconcile_listed-Pending kind tried (O.list kind s.world) s.deeds h c) e)
        e

  module _ (goes_on : (w : O.World) → (O.is_cancelled w).0 ≡ false) where
    unless_ended_whole :
        (b : Bool) (s : Control O) (rest : Bool × Control O)
        → b ≡ false
        → rest.0 ≡ false
        → (unless_ended O b s rest).0 ≡ false
    unless_ended_whole true s rest h k = h
    unless_ended_whole false s rest h k = k

    reconcile_items_whole :
        (items : List Workload) (s : Control O) → (reconcile_items O items s).0 ≡ false
    unfolding reconcile_items
    reconcile_items_whole [] s = refl
    reconcile_items_whole (current ∷ rest) s =
        let s' : Control O = record s { world = (O.is_cancelled s.world).1 } in
        unless_ended_whole (O.is_cancelled s.world).0 s'
          (reconcile_items O rest (reconcile_one O current s')) (goes_on s.world)
          (reconcile_items_whole rest (reconcile_one O current s'))

    reconcile_listed_whole :
        (kind : Kind) (r : Result O.Failure (List Workload) × O.World)
        (deeds : List (Deed M O.Failure))
        → (reconcile_listed O kind r deeds).0 ≡ false
    reconcile_listed_whole kind (err f, w) deeds = refl
    reconcile_listed_whole kind (ok items, w) deeds = reconcile_items_whole items _

    reconcile_kinds_whole :
        (kinds : List Kind) (s : Control O) → (reconcile_kinds O kinds s).0 ≡ false
    unfolding reconcile_kinds
    reconcile_kinds_whole [] s = refl
    reconcile_kinds_whole (kind ∷ rest) s =
        let r = reconcile_listed O kind (O.list kind s.world) s.deeds in
        unless_ended_whole r.0 r.1 (reconcile_kinds O rest r.1)
          (reconcile_listed_whole kind (O.list kind s.world) s.deeds)
          (reconcile_kinds_whole rest r.1)

    -- While the context does not end, a round, on a log where all listed workloads have been observed,
    -- lists every kind once, also after a list that failed, and again leaves a log where the observed
    -- workloads are all that were listed, each as often and in that order.
    pub reconcile_kinds_observes :
        (s : Control O)
        → listed_in s.deeds ≡ observed_in s.deeds
        → (listed_in (reconcile_kinds O all_kinds s).1.deeds
            ≡ observed_in (reconcile_kinds O all_kinds s).1.deeds)
          × (kinds_in (reconcile_kinds O all_kinds s).1.deeds
              ≡ rev_onto all_kinds (kinds_in s.deeds))
    reconcile_kinds_observes s h =
        reconcile_kinds-Pending all_kinds (kinds_in s.deeds) s (h, refl)
          (reconcile_kinds_whole all_kinds s)
