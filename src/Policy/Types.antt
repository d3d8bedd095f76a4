-- ===== src/Policy/Types.antt =====
-- internal/policy/types.go: compiled policies, and the test whether a target covers a workload. The
-- label selectors of apimachinery, package regexp and time.ParseDuration are parameters.
use kube_workload_lm.Base.{
  String, ◌==◌, Bool, true, false, ◌||◌, Option, none, some, List, any, is_empty, not,
  if◌then◌else◌,
}
use kube_workload_lm.Base.Int.{ℤ}
use kube_workload_lm.Base.Dict.{Dict}
use kube_workload_lm.Workload.{Kind}
use kube_workload_lm.Lifecycle.Revision.{TrackingSpec}
use kube_workload_lm.Schedule.Window.{Window}

-- metav1.LabelSelectorRequirement; the values are nil where the operator takes none.
pub record Requirement : Type 0 where
  pub key : String
  pub operator : String
  pub values : Option (List String)

-- metav1.LabelSelector
pub record LabelSelector : Type 0 where
  pub match_labels : Dict String
  pub match_expressions : List Requirement

pub record Matchers : Type 1 where
  -- labels.Selector and `metav1.LabelSelectorAsSelector`
  pub Selector : Type 0
  pub compile_selector : LabelSelector → Option Selector
  -- `LabelSelector.DeepCopy`
  pub deep_copy : LabelSelector → LabelSelector
  pub selector_matches : Selector → Dict String → Bool
  -- `regexp.Compile` and `MatchString`
  pub Pattern : Type 0
  pub compile_pattern : String → Option Pattern
  pub match_string : Pattern → String → Bool
  -- `time.ParseDuration`
  pub parse_duration : String → Option ℤ

pub record Lifecycle : Type 0 where
  pub max_age : ℤ
  pub revision : TrackingSpec
  pub expired_action : String

pub record Replicas : Type 0 where
  pub scheduled_down : ℤ
  pub expired : ℤ

pub record Schedule : Type 0 where
  pub time_zone : String
  pub down_windows : List Window

module _ (M : Matchers) where
  pub record Target : Type 0 where
    pub kinds : List Kind
    pub selector : LabelSelector
    pub compiled_selector : Option M.Selector
    pub name_patterns : List String
    pub compiled_patterns : List M.Pattern

  pub record Policy : Type 0 where
    pub name : String
    pub priority : ℤ
    pub target : Target
    pub lifecycle : Lifecycle
    pub replicas : Replicas
    pub schedule : Option Schedule

  pub record PolicySet : Type 0 where
    pub api_version : String
    pub kind : String
    pub policies : List Policy

  unfoldable pub kind_matches : Target → Kind → Bool
  kind_matches target kind = any (λ candidate. candidate == kind) target.kinds

  unfoldable pub selector_matches : Target → Dict String → Bool
  selector_matches target labels = elim target.compiled_selector [
    | none ↦ false
    | some selector ↦ M.selector_matches selector labels
  ]

  unfoldable pub name_pattern_matches : Target → String → Bool
  name_pattern_matches target name =
      if name == "" || is_empty target.compiled_patterns
      then false
      else any (λ pattern. M.match_string pattern name) target.compiled_patterns

  -- `Target.matches`
  unfoldable pub matches : Target → Kind → String → Dict String → Bool
  unfolding kind_matches selector_matches name_pattern_matches
  matches target kind name labels =
      if not (kind_matches target kind)
      then false
      else if selector_matches target labels
      then true
      else name_pattern_matches target name
