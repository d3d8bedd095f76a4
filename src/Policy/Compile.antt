-- ===== src/Policy/Compile.antt =====
-- internal/policy/validate.go: the compilation of a decoded document into policies.
pub mod Sound
use kube_workload_lm.Base.{
  String, ◌<>◌, ◌==◌, ◌&&◌, not, Option, none, some, List, [], ◌∷◌, ℕ, suc, is_nil, Result, ok, err,
  ◌>>=◌, ◌>>◌, fail_if, wrap, if◌then◌else◌,
}
use kube_workload_lm.Base.Int.{ℤ, pos, ltb_ℤ}
use kube_workload_lm.Lifecycle.Revision.{source_container_images}
use kube_workload_lm.Schedule.Calendar.{Zones}
use kube_workload_lm.Schedule.Window.{contains}
use kube_workload_lm.Policy.Types.{
  Matchers, LabelSelector, Lifecycle, Schedule, Target, Policy, PolicySet,
}
use kube_workload_lm.Policy.Raw.{
  RawLifecycle, RawSchedule, RawSelector, RawTarget, RawPolicy, RawSpec, RawPolicySet, PolicyError,
  unsupported_api_version, unsupported_set_kind, no_policies, empty_name, no_priority, no_kinds,
  no_matcher, empty_selector, duplicate_policy, invalid_selector, empty_pattern, invalid_pattern,
  bad_max_age, no_time_zone, no_windows, unknown_time_zone, in_target, in_lifecycle, in_replicas,
  in_schedule, in_policy, default_max_age, action_scale, nothing_in, items_of,
}
use kube_workload_lm.Policy.Fields.{
  check_kinds, compile_requirements, has_selector, compile_revision, compile_action,
  compile_replicas, check_windows,
}

module _ (M : Matchers) (Z : Zones) where
  compile_selector : LabelSelector → Result PolicyError M.Selector
  compile_selector selector = elim (M.compile_selector selector) [
    | none ↦ err invalid_selector
    | some compiled ↦ ok compiled
  ]

  abbrev SelectorPair : Type 0
  SelectorPair = LabelSelector × Option M.Selector

  abbrev empty_label_selector : LabelSelector
  empty_label_selector = record { match_labels = []; match_expressions = [] }

  build_selector : RawSelector → Result PolicyError SelectorPair
  unfolding compile_selector compile_requirements
  build_selector raw = do
    requirements ← compile_requirements raw.match_expressions
    let selector : LabelSelector = record {
      match_labels = raw.match_labels;
      match_expressions = requirements;
    }
    compiled ← compile_selector selector
    ok (selector, some compiled)

  -- `compileSelector`
  unfoldable pub compile_raw_selector : Option RawSelector → Result PolicyError SelectorPair
  unfolding build_selector
  compile_raw_selector none = err empty_selector
  compile_raw_selector (some raw) =
      if has_selector (some raw) then build_selector raw else err empty_selector

  -- The call of it in `compileTarget`.
  selector_part : Option RawSelector → Result PolicyError SelectorPair
  unfolding compile_raw_selector
  selector_part raw =
      if has_selector raw then compile_raw_selector raw else ok (empty_label_selector, none)

  -- `"^(?:" + pattern + ")$"`
  abbrev pub anchored : String → String
  anchored pattern = "^(?:" <> (pattern <> ")$")

  unfoldable pub compile_patterns : List String → Result PolicyError (List M.Pattern)
  compile_patterns [] = ok []
  compile_patterns (pattern ∷ rest) =
      let later = compile_patterns rest in
      if pattern == "" then err empty_pattern else elim (M.compile_pattern (anchored pattern)) [
        | none ↦ err (invalid_pattern pattern)
        | some re ↦ later >>= λ others. ok (re ∷ others)
      ]

  compile_present_target : RawTarget → Result PolicyError (Target M)
  unfolding selector_part compile_patterns
  compile_present_target raw = do
    fail_if (nothing_in raw.kinds) no_kinds
    check_kinds (items_of raw.kinds) []
    fail_if (not (has_selector raw.selector) && nothing_in raw.name_patterns) no_matcher
    (selector, compiled_selector) ← selector_part raw.selector
    compiled_patterns ← compile_patterns (items_of raw.name_patterns)
    ok (record {
      kinds = items_of raw.kinds;
      selector = selector;
      compiled_selector = compiled_selector;
      name_patterns = items_of raw.name_patterns;
      compiled_patterns = compiled_patterns;
    })

  unfoldable pub compile_target : Option RawTarget → Result PolicyError (Target M)
  unfolding compile_present_target check_kinds
  compile_target none = err no_kinds
  compile_target (some raw) = compile_present_target raw

  unfoldable pub compile_max_age : Option String → Result PolicyError ℤ
  compile_max_age none = ok default_max_age
  compile_max_age (some text) = elim (M.parse_duration text) [
    | none ↦ err bad_max_age
    | some parsed ↦ if ltb_ℤ (pos 0) parsed then ok parsed else err bad_max_age
  ]

  unfoldable pub compile_lifecycle : Option RawLifecycle → Result PolicyError Lifecycle
  unfolding compile_max_age compile_revision compile_action
  compile_lifecycle none = ok (record {
    max_age = default_max_age;
    revision = record { source = source_container_images; containers = none };
    expired_action = action_scale;
  })
  compile_lifecycle (some raw) = do
    max_age ← compile_max_age raw.max_age
    revision ← compile_revision raw.revision
    action ← compile_action raw.expired_action
    ok (record { max_age = max_age; revision = revision; expired_action = action })

  compile_present_schedule : RawSchedule → Result PolicyError Schedule
  unfolding check_windows
  compile_present_schedule raw = do
    fail_if (raw.time_zone == "") no_time_zone
    fail_if (is_nil (Z.load raw.time_zone)) (unknown_time_zone raw.time_zone)
    fail_if (nothing_in raw.down_windows) no_windows
    check_windows (items_of raw.down_windows) []
    ok (record { time_zone = raw.time_zone; down_windows = items_of raw.down_windows })

  unfoldable pub compile_schedule : Option RawSchedule → Result PolicyError (Option Schedule)
  unfolding compile_present_schedule
  compile_schedule none = ok none
  compile_schedule (some raw) = compile_present_schedule raw >>= λ s. ok (some s)

  unfoldable pub compile_fields : RawPolicy → ℤ → Result PolicyError (Policy M)
  compile_fields raw priority = do
    target ← wrap in_target (compile_target raw.target)
    lifecycle ← wrap in_lifecycle (compile_lifecycle raw.lifecycle)
    replicas ← wrap in_replicas (compile_replicas raw.replicas)
    schedule ← wrap in_schedule (compile_schedule raw.schedule)
    ok (record {
      name = raw.name;
      priority = priority;
      target = target;
      lifecycle = lifecycle;
      replicas = replicas;
      schedule = schedule;
    })

  unfoldable pub compile_policy : RawPolicy → Result PolicyError (Policy M)
  unfolding compile_fields compile_target compile_lifecycle compile_replicas compile_schedule
  compile_policy raw = if raw.name == "" then err empty_name else elim raw.priority [
    | none ↦ err no_priority
    | some priority ↦ compile_fields raw priority
  ]

  -- The loop over the policies, from the index and the names that were seen.
  unfoldable pub compile_policies :
      List RawPolicy → ℕ → List String → Result PolicyError (List (Policy M))
  unfolding compile_policy
  compile_policies [] index seen = ok []
  compile_policies (raw ∷ rest) index seen =
      wrap (in_policy index) (compile_policy raw) >>= λ compiled.
      if contains seen compiled.name
      then err (in_policy index (duplicate_policy compiled.name))
      else compile_policies rest (suc index) (compiled.name ∷ seen) >>= λ others.
          ok (compiled ∷ others)

  abbrev pub raw_policies : Option RawSpec → Option (List RawPolicy)
  raw_policies none = none
  raw_policies (some spec) = spec.policies

  unfoldable pub compile_policy_set : RawPolicySet → Result PolicyError (PolicySet M)
  unfolding compile_policies
  compile_policy_set raw =
      if not (raw.api_version == "lifecycle.example.com/v1alpha1")
      then err (unsupported_api_version raw.api_version)
      else if not (raw.kind == "WorkloadLifecyclePolicySet")
      then err (unsupported_set_kind raw.kind)
      else elim (raw_policies raw.spec) [
        | none ↦ err no_policies
        | some items ↦ compile_policies items 0 [] >>= λ policies.
            ok (record { api_version = raw.api_version; kind = raw.kind; policies = policies })
      ]
