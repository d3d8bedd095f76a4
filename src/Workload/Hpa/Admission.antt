-- ===== src/Workload/Hpa/Admission.antt =====
-- What `Evaluate` of internal/workload/hpa.go admits.
use kube_workload_lm.Base.{
  true, false, none, List, [], ◌∷◌, Result, ok, err, ◌≡◌, ◌↔◌, refl, arith, All, Bool-cases, inl,
  inr,
}
use kube_workload_lm.Workload.{Workload, is_supported}
use kube_workload_lm.Workload.Hpa.{Hpa, evaluate, rejection, scan, targets_workload}

module _ {F : Type 0} (target : Workload) where
  scan_admits :
      (items : List Hpa)
      → (rejection (scan {F = F} items target) ≡ none)
        ↔ All (λ hpa. targets_workload hpa target ≡ false) items
  unfolding scan rejection
  scan_admits [] = (λ _. tt, λ _. refl)
  scan_admits (hpa ∷ rest) = elim (Bool-cases (targets_workload hpa target)) [
    | inl hit ↦ (rw hit (λ e. ground arith), λ h. ground arith)
    | inr miss ↦ rw miss (λ e. (refl, (scan_admits rest).0 e), λ h. (scan_admits rest).1 h.1)
  ]

  -- A workload is admitted exactly if its kind is supported and the API server listed the HPAs,
  -- none of which targets it.
  pub evaluate_admits :
      (listed : Result F (List Hpa))
      → (rejection (evaluate target listed) ≡ none) ↔ (
          (is_supported target.kind ≡ true)
          × ((items : List Hpa) × (listed ≡ ok items)
              × All (λ hpa. targets_workload hpa target ≡ false) items))
  unfolding evaluate rejection
  evaluate_admits (err e) = ground arith
  evaluate_admits (ok items) =
      let (to, from) = scan_admits items in
      elim (Bool-cases (is_supported target.kind)) [
        | inl hit ↦ rw hit (λ e. (refl, (items, refl, to e)), λ h. from (ground (arith)))
        | inr miss ↦ rw miss (ground arith)
      ]
