-- ===== src/Policy/Match/Choice.antt =====
-- What `Match` of internal/policy/matcher.go chooses.
use kube_workload_lm.Base.{
  String, true, false, none, List, [], ◌∷◌, ◌≡◌, ◌↔◌, refl, ap, map, not, sort_strings_some, arith,
  All, is_empty, if◌then◌else◌, ◌⊎◌, inl,
}
use kube_workload_lm.Base.Int.{ℤ, ltb_ℤ, ◌≤ℤ◌}
use kube_workload_lm.Base.Dict.{Dict}
use kube_workload_lm.Workload.{Kind}
use kube_workload_lm.Policy.Types.{Matchers, Policy, PolicySet}
use kube_workload_lm.Policy.Match.{
  conflict, candidates, highest_priority, winners_at, result_of, choose, match_policy,
}

module _ (M : Matchers) where
  -- The higher of the two, as the loop keeps it.
  abbrev higher : ℤ → Policy M → ℤ
  higher highest p = if ltb_ℤ highest p.priority then p.priority else highest

  abbrev IsHighest : List (Policy M) → Policy M → Type 0
  IsHighest l p = (winners_at M p.priority l ≡ p ∷ []) × All (λ q. q.priority ≤ℤ p.priority) l

  -- The highest priority is that of the start or of some policy in the list.
  highest_reached :
      (highest : ℤ) (l : List (Policy M))
      → (highest_priority M highest l ≡ highest)
        ⊎ (is_empty (winners_at M (highest_priority M highest l) l) ≡ false)
  unfolding highest_priority
  highest_reached highest [] = inl refl
  highest_reached highest (p ∷ rest) =
      let reached = highest_reached (higher highest p) rest in ground arith

  -- Something wins.
  winners_exist :
      (first : Policy M) (rest : List (Policy M))
      → is_empty (winners_at M (highest_priority M first.priority rest) (first ∷ rest)) ≡ false
  winners_exist first rest = let reached = highest_reached first.priority rest in ground arith

  result_of-conflict :
      (winners : List (Policy M))
      → is_empty winners ≡ false
      → (conflict M (result_of M winners) ≡ true) ↔ ((result_of M winners).policy ≡ none)
  unfolding result_of conflict
  result_of-conflict [] h = ground arith
  result_of-conflict (q ∷ []) h = ground arith
  result_of-conflict (q ∷ r ∷ rest) h =
      (λ c. refl, λ n. ap not (sort_strings_some q.name (r.name ∷ map (λ x. x.name) rest)))

  choose-conflict :
      (l : List (Policy M))
      → (conflict M (choose M l) ≡ true) ↔ (((choose M l).policy ≡ none) × (is_empty l ≡ false))
  unfolding choose conflict
  choose-conflict [] = ground arith
  choose-conflict (first ∷ rest) =
      let (to, from) =
        result_of-conflict (winners_at M (highest_priority M first.priority rest) (first ∷ rest))
          (winners_exist first rest) in
      (λ c. (to c, refl), λ (n, _). from n)

  -- There is a conflict exactly if some policy covers the workload and none is chosen.
  pub match_policy-conflict :
      (set : PolicySet M) (kind : Kind) (name : String) (labels : Dict String)
      → let result = match_policy M set kind name labels in
        (conflict M result ≡ true)
        ↔ ((result.policy ≡ none) × (is_empty (candidates M set kind name labels) ≡ false))
  unfolding match_policy
  match_policy-conflict set kind name labels = choose-conflict (candidates M set kind name labels)
