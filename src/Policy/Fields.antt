-- ===== src/Policy/Fields.antt =====
-- internal/policy/validate.go: the checks and defaults of the fields that need no parameter.
use kube_workload_lm.Base.{
  String, ◌==◌, Bool, false, ◌||◌, not, Option, none, some, List, [], ◌∷◌, is_empty, is_nil, Result,
  ok, err, ◌>>=◌, ◌>>◌, wrap, if◌then◌else◌,
}
use kube_workload_lm.Base.Int.{ℤ, pos, ltb_ℤ}
use kube_workload_lm.Workload.{Kind, is_supported}
use kube_workload_lm.Lifecycle.Revision.{TrackingSpec, source_container_images}
use kube_workload_lm.Schedule.Window.{Window, validate_window, contains}
use kube_workload_lm.Policy.Types.{Requirement, Replicas}
use kube_workload_lm.Policy.Raw.{
  RawRevision, RawReplicas, RawSelector, PolicyError, unsupported_kind, duplicate_kind,
  values_required, values_forbidden, unsupported_operator, unsupported_source, duplicate_container,
  no_containers, empty_container, bad_action, negative_replicas, duplicate_window, bad_window,
  action_scale, action_delete, nothing_in,
}

-- The loop over `kinds`; the last argument is `seenKinds`.
unfoldable pub check_kinds : List Kind → List Kind → Result PolicyError (Unit {0})
check_kinds [] seen = ok tt
check_kinds (kind ∷ rest) seen =
    if not (is_supported kind)
    then err (unsupported_kind kind)
    else if contains seen kind
    then err (duplicate_kind kind)
    else check_kinds rest (kind ∷ seen)

-- One round of the loop over the match expressions.
unfoldable pub compile_requirement : Requirement → Result PolicyError Requirement
compile_requirement r =
    if r.operator == "In" || r.operator == "NotIn"
    then if nothing_in r.values then err (values_required r.operator) else ok r
    else if r.operator == "Exists" || r.operator == "DoesNotExist"
    then if is_nil r.values then ok r else err (values_forbidden r.operator)
    else err (unsupported_operator r.operator)

unfoldable pub compile_requirements : List Requirement → Result PolicyError (List Requirement)
unfolding compile_requirement
compile_requirements [] = ok []
compile_requirements (r ∷ rest) =
    let later = compile_requirements rest in
    compile_requirement r >>= λ compiled. later >>= λ others. ok (compiled ∷ others)

abbrev pub has_selector : Option RawSelector → Bool
has_selector none = false
has_selector (some raw) = not (is_empty raw.match_labels) || not (is_empty raw.match_expressions)

-- The loop over `revision.containers`.
unfoldable pub check_containers : List String → List String → Result PolicyError (Unit {0})
check_containers [] seen = ok tt
check_containers (name ∷ rest) seen =
    if name == ""
    then err empty_container
    else if contains seen name
    then err (duplicate_container name)
    else check_containers rest (name ∷ seen)

unfoldable pub compile_source : Option String → Result PolicyError String
compile_source none = ok source_container_images
compile_source (some source) =
    if source == source_container_images then ok source else err (unsupported_source source)

unfoldable pub compile_containers : Option (List String) → Result PolicyError (Option (List String))
unfolding check_containers
compile_containers none = ok none
compile_containers (some names) =
    if is_empty names then err no_containers else check_containers names [] >> ok (some names)

unfoldable pub compile_revision : Option RawRevision → Result PolicyError TrackingSpec
unfolding compile_source compile_containers
compile_revision none = ok (record { source = source_container_images; containers = none })
compile_revision (some raw) = do
  source ← compile_source raw.source
  containers ← compile_containers raw.containers
  ok (record { source = source; containers = containers })

unfoldable pub compile_action : Option String → Result PolicyError String
compile_action none = ok action_scale
compile_action (some action) =
    if action == ""
    then ok action_scale
    else if action == action_scale || action == action_delete
    then ok action
    else err (bad_action action)

abbrev or_zero : Option ℤ → ℤ
or_zero none = pos 0
or_zero (some n) = n

abbrev check_replicas : Replicas → Result PolicyError Replicas
check_replicas r =
    if ltb_ℤ r.scheduled_down (pos 0) || ltb_ℤ r.expired (pos 0)
    then err negative_replicas
    else ok r

unfoldable pub compile_replicas : Option RawReplicas → Result PolicyError Replicas
compile_replicas none = ok (record { scheduled_down = pos 0; expired = pos 0 })
compile_replicas (some raw) =
    check_replicas
      (record { scheduled_down = or_zero raw.scheduled_down; expired = or_zero raw.expired })

-- The loop over the down windows; the last argument holds the names that were seen.
unfoldable pub check_windows : List Window → List String → Result PolicyError (Unit {0})
unfolding validate_window
check_windows [] seen = ok tt
check_windows (w ∷ rest) seen =
    wrap bad_window (validate_window w)
    >> (if contains seen w.name
        then err (duplicate_window w.name)
        else check_windows rest (w.name ∷ seen))
