-- ===== src/Controller/Cluster/Admitted.antt =====
-- Which workloads a transition touches at all, with the HPA detector that cmd/controller/main.go gives
-- to the Reconciler.
use kube_workload_lm.Base.{
  Bool, Bool-cases, Option-cases, none, some, true, false, List, [], ok, wrap, wrap_ok, ◌≡◌, ◌⊎◌,
  inl, inr, ap, subst, All, arith, if◌then◌else◌,
}
use kube_workload_lm.Workload.{Workload, is_supported}
use kube_workload_lm.Workload.Hpa.{
  Hpa, HpaError, HpaEvaluation, evaluate, rejection, targets_workload,
}
use kube_workload_lm.Workload.Hpa.Admission.{evaluate_admits}
use kube_workload_lm.Lifecycle.Revision.{Hasher}
use kube_workload_lm.Schedule.Calendar.{Zones}
use kube_workload_lm.Policy.Types.{Matchers, Policy}
use kube_workload_lm.State.Codec.{Json}
use kube_workload_lm.State.Store.{ConfigMapStateStore}
use kube_workload_lm.Controller.Effects.{Machine, rejected}
use kube_workload_lm.Controller.Transition.{reconcile, zero_decision}
use kube_workload_lm.Controller.Transition.Rejected.{reconcile_rejected}
use kube_workload_lm.Controller.Cluster.{
  Cluster, ClusterFailure, in_hpas, evaluated, collaborators_of,
}

module _ (K : Cluster) (J : Json) (store : ConfigMapStateStore K.config_maps) where
  -- The kind is supported, and the HPAs were listed, none of which targets the workload.
  abbrev pub IsAdmitted : Workload → K.World → Type 0
  IsAdmitted current w =
      (is_supported current.kind ≡ true)
      × ((items : List Hpa) × ((K.list_hpas w).0 ≡ ok items)
          × All (λ hpa. targets_workload hpa current ≡ false) items)

  Rejection : Workload → K.World → Type 0
  Rejection current w =
      (e : HpaError (ClusterFailure K)) × (rejection
          ((collaborators_of K J store).evaluate current w).0
        ≡ some e)

  answer : Bool → Workload → K.World → HpaEvaluation (ClusterFailure K)
  answer supported current w =
      (if supported
        then evaluated K J store current (K.list_hpas w)
        else (evaluate current (ok []), w)).0

  answer-IsAdmitted :
      (current : Workload) (w : K.World)
      → rejection (answer (is_supported current.kind) current w) ≡ none
      → IsAdmitted current w
  unfolding answer
  answer-IsAdmitted current w h = elim (Bool-cases (is_supported current.kind)) [
    | inl hit ↦
        let (_, (items, listed, free)) =
          (evaluate_admits current (wrap in_hpas (K.list_hpas w).0)).0
            (subst (λ b. rejection (answer b current w) ≡ none) hit h) in
        (hit, (items, wrap_ok in_hpas _ items listed, free))
    | inr miss ↦
        let (hit, _) =
          (evaluate_admits {F = ClusterFailure K} current (ok [])).0
            (subst (λ b. rejection (answer b current w) ≡ none) miss h) in
        absurd (grind arith)
  ]

  evaluate-IsAdmitted :
      (current : Workload) (w : K.World) → IsAdmitted current w ⊎ Rejection current w
  unfolding Rejection answer
  evaluate-IsAdmitted current w =
      elim (Option-cases (rejection (answer (is_supported current.kind) current w))) [
        | inl admitted ↦ inl (answer-IsAdmitted current w admitted)
        | inr refused ↦ inr refused
      ]

  -- A transition calls the store, the scale gateway or the deleter only for a workload of a supported
  -- kind, and only if the API server has listed the HPAs and none of these targets the workload;
  -- otherwise it calls none of the three, decides nothing, and reports that it was rejected.
  pub reconcile-IsAdmitted :
      (H : Hasher) (Z : Zones) {M : Matchers} (current : Workload) (selected : Policy M)
      (s : Machine (collaborators_of K J store))
      → let (outcome, s') = reconcile (collaborators_of K J store) H Z current selected s in
        IsAdmitted current s.world
        ⊎ ((s'.calls ≡ s.calls)
            × (outcome.0 ≡ zero_decision)
            × ((e : HpaError (ClusterFailure K)) × (outcome.1 ≡ some (rejected e))))
  unfolding Rejection
  reconcile-IsAdmitted H Z current selected s = elim (evaluate-IsAdmitted current s.world) [
    | inl admitted ↦ inl admitted
    | inr (e, h) ↦
        let same = reconcile_rejected (collaborators_of K J store) H Z current selected s e h in
        inr (ap (λ r. r.1.calls) same, ap (λ r. r.0.0) same, (e, ap (λ r. r.0.1) same))
  ]
