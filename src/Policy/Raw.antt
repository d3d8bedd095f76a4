-- ===== src/Policy/Raw.antt =====
-- internal/policy/raw.go: the decoded policy document, where a pointer tells an absent field from an
-- empty one, and the errors of its compilation.
use kube_workload_lm.Base.{String, Bool, true, Option, none, some, List, [], ℕ, is_empty}
use kube_workload_lm.Base.Int.{ℤ, pos}
use kube_workload_lm.Base.Dict.{Dict}
use kube_workload_lm.Workload.{Kind}
use kube_workload_lm.Schedule.Window.{Window, WindowError}
use kube_workload_lm.Policy.Types.{Requirement}

pub record RawRevision : Type 0 where
  pub source : Option String
  pub containers : Option (List String)

pub record RawLifecycle : Type 0 where
  pub max_age : Option String
  pub revision : Option RawRevision
  pub expired_action : Option String

pub record RawReplicas : Type 0 where
  pub scheduled_down : Option ℤ
  pub expired : Option ℤ

pub record RawSchedule : Type 0 where
  pub time_zone : String
  pub down_windows : Option (List Window)

pub record RawSelector : Type 0 where
  pub match_labels : Dict String
  pub match_expressions : List Requirement

pub record RawTarget : Type 0 where
  pub kinds : Option (List Kind)
  pub selector : Option RawSelector
  pub name_patterns : Option (List String)

pub record RawPolicy : Type 0 where
  pub name : String
  pub priority : Option ℤ
  pub target : Option RawTarget
  pub lifecycle : Option RawLifecycle
  pub replicas : Option RawReplicas
  pub schedule : Option RawSchedule

pub record RawSpec : Type 0 where
  pub policies : Option (List RawPolicy)

pub record RawPolicySet : Type 0 where
  pub api_version : String
  pub kind : String
  pub spec : Option RawSpec

pub data PolicyError : Type 0 where
  unsupported_api_version unsupported_set_kind : String → PolicyError
  no_policies empty_name no_priority no_kinds no_matcher empty_selector : PolicyError
  unsupported_kind duplicate_kind duplicate_policy : String → PolicyError
  values_required values_forbidden unsupported_operator : String → PolicyError
  invalid_selector empty_pattern : PolicyError
  invalid_pattern : String → PolicyError
  bad_max_age : PolicyError
  unsupported_source duplicate_container : String → PolicyError
  no_containers empty_container : PolicyError
  bad_action : String → PolicyError
  negative_replicas : PolicyError
  no_time_zone no_windows : PolicyError
  unknown_time_zone duplicate_window : String → PolicyError
  bad_window : WindowError → PolicyError
  in_target in_lifecycle in_replicas in_schedule : PolicyError → PolicyError
  in_policy : ℕ → PolicyError → PolicyError

abbrev pub default_max_age : ℤ
default_max_age = pos 259200000000000

abbrev pub action_scale : String
action_scale = "scale"

abbrev pub action_delete : String
action_delete = "delete"

-- The length test of a slice behind a pointer, nil or not.
abbrev pub nothing_in {ℓ} : {A : Type ℓ} → Option (List A) → Bool
nothing_in none = true
nothing_in (some xs) = is_empty xs

abbrev pub items_of {ℓ} : {A : Type ℓ} → Option (List A) → List A
items_of none = []
items_of (some xs) = xs
