-- ===== src/Policy/Match.antt =====
-- internal/policy/matcher.go: the policy of the highest priority that covers a workload, or the
-- names of those that share that priority.
pub mod Choice
use kube_workload_lm.Base.{
  String, Bool, not, Option, none, some, List, [], ◌∷◌, map, select, is_empty, if◌then◌else◌,
  sort_strings,
}
use kube_workload_lm.Base.Int.{ℤ, ltb_ℤ, ◌==ℤ◌}
use kube_workload_lm.Base.Dict.{Dict}
use kube_workload_lm.Workload.{Kind}
use kube_workload_lm.Policy.Types.{Matchers, Policy, PolicySet, matches}

module _ (M : Matchers) where
  pub record MatchResult : Type 0 where
    pub policy : Option (Policy M)
    pub conflict_names : List String

  -- `Conflict`
  unfoldable pub conflict : MatchResult → Bool
  conflict result = not (is_empty result.conflict_names)

  -- The first loop: the policies that cover the workload.
  unfoldable pub candidates : PolicySet M → Kind → String → Dict String → List (Policy M)
  candidates set kind name labels = select (λ p. matches M p.target kind name labels) set.policies

  -- The second loop.
  unfoldable pub highest_priority : ℤ → List (Policy M) → ℤ
  highest_priority highest [] = highest
  highest_priority highest (p ∷ rest) =
      highest_priority (if ltb_ℤ highest p.priority then p.priority else highest) rest

  abbrev pub winners_at : ℤ → List (Policy M) → List (Policy M)
  winners_at highest = select (λ p. p.priority ==ℤ highest)

  abbrev names_of : List (Policy M) → List String
  names_of = map (λ p. p.name)

  -- What is returned for the winners.
  unfoldable pub result_of : List (Policy M) → MatchResult
  result_of (winner ∷ []) = record { policy = some winner; conflict_names = [] }
  result_of winners = record { policy = none; conflict_names = sort_strings (names_of winners) }

  unfoldable pub choose : List (Policy M) → MatchResult
  unfolding highest_priority result_of sort_strings
  choose [] = record { policy = none; conflict_names = [] }
  choose (first ∷ rest) =
      result_of (winners_at (highest_priority first.priority rest) (first ∷ rest))

  -- `Match`
  unfoldable pub match_policy : PolicySet M → Kind → String → Dict String → MatchResult
  unfolding candidates choose
  match_policy set kind name labels = choose (candidates set kind name labels)
