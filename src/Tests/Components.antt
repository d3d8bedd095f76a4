-- ===== src/Tests/Components.antt =====
-- Identities, matching, clean-up, admission and scale, at concrete inputs.
use kube_workload_lm.Base.{
  String, ◌==◌, true, false, not, none, some, List, [], ◌∷◌, Result, ok, ◌≡◌, ◌≢◌, ◌↔◌, arith, All,
  is_empty, eq_iff, if◌then◌else◌,
}
use kube_workload_lm.Base.Int.{ℤ, pos}
use kube_workload_lm.Workload.{kind_deployment, is_supported}
use kube_workload_lm.Workload.Hpa.{Hpa, evaluate, rejection, targets_workload}
use kube_workload_lm.Workload.Hpa.Admission.{evaluate_admits}
use kube_workload_lm.Workload.Scale.{ScaleClient}
use kube_workload_lm.Lifecycle.Revision.{Revision}
use kube_workload_lm.Policy.Match.{conflict, candidates, match_policy}
use kube_workload_lm.Policy.Match.Choice.{match_policy-conflict}
use kube_workload_lm.State.Types.{WorkloadState, zero_state}
use kube_workload_lm.Controller.Identity.{reconcile_identity, enter_cycle, is_redeployed, same_uid}
use kube_workload_lm.Controller.Identity.Cycle.{reconcile_identity_age, enter_cycle_remembers}
use kube_workload_lm.Tests.Cluster.{noon, toy_matchers, web, policies}

abbrev pub known : WorkloadState
known = record zero_state {
  kind = kind_deployment;
  namespace = "prod";
  name = "web";
  workload_uid = "uid-1";
  tracking_spec_hash = "sha256:AllContainers";
  revision_hash = "sha256:images";
  first_seen_at = record { instant = pos 400; offset = pos 0 };
  last_seen_at = record { instant = pos 400; offset = pos 0 };
}

abbrev present_revision : Revision
present_revision = record {
  tracking_spec_hash = "sha256:AllContainers";
  revision_hash = "sha256:images";
  containers = web.containers;
}

reconcile_identity_age_example :
    let (next, changed) = reconcile_identity known web "nightly" present_revision noon in
    ((changed ≡ false) ↔ (
      (known.workload_uid ≢ "")
      × (known.workload_uid ≡ web.uid)
      × (known.tracking_spec_hash ≡ present_revision.tracking_spec_hash)
      × (known.revision_hash ≡ present_revision.revision_hash)))
    × (next.first_seen_at ≡ (if changed then noon else known.first_seen_at))
    × (next.replica_snapshot ≡ (if same_uid known web then known.replica_snapshot else none))
    × (next.last_seen_at ≡ noon)
reconcile_identity_age_example = reconcile_identity_age known web "nightly" present_revision noon

abbrev night_id : String
night_id = "night:2023-12-31"

night_named : night_id ≢ ""
night_named h = ground (arith, eq_iff night_id "")

hash_set : known.revision_hash ≢ ""
hash_set h = ground (arith, eq_iff known.revision_hash "")

other_cycle : night_id ≢ known.window_instance_id
other_cycle h = ground (arith, eq_iff night_id known.window_instance_id)

enter_cycle_remembers_example :
    let entered = enter_cycle known night_id true "sha256:images" in
    (enter_cycle entered night_id true "sha256:later" ≡ entered)
    × (is_redeployed (enter_cycle entered night_id true "sha256:later") true "sha256:later"
        ≡ not ("sha256:images" == "sha256:later"))
enter_cycle_remembers_example =
    enter_cycle_remembers known night_id "sha256:images" "sha256:later" night_named hash_set
      other_cycle

match_policy-conflict_example :
    let result = match_policy toy_matchers policies kind_deployment "web" [] in
    (conflict toy_matchers result ≡ true) ↔ (
      (result.policy ≡ none)
      × (is_empty (candidates toy_matchers policies kind_deployment "web" []) ≡ false))
match_policy-conflict_example = match_policy-conflict toy_matchers policies kind_deployment "web" []

abbrev other_hpa : Hpa
other_hpa = record {
  namespace = "prod";
  name = "api";
  target_api_version = "apps/v1";
  target_kind = "Deployment";
  target_name = "api";
}

evaluate_admits_example : (rejection {F = String} (evaluate web (ok (other_hpa ∷ []))) ≡ none) ↔ (
    (is_supported web.kind ≡ true)
    × ((items : List Hpa) × (◌≡◌ {A = Result String (List Hpa)} (ok (other_hpa ∷ [])) (ok items))
        × All (λ hpa. targets_workload hpa web ≡ false) items))
evaluate_admits_example = evaluate_admits {F = String} web (ok (other_hpa ∷ []))

abbrev pub scale_of_two : ScaleClient
scale_of_two = record {
  State = Unit;
  Failure = String;
  Scale = ℤ;
  replicas = λ scale. scale;
  with_replicas = λ scale replicas. replicas;
  cancelled = λ s. none;
  get_scale = λ r namespace name s. (ok (some (pos 2)), s);
  update_scale = λ r namespace name scale s. (ok scale, s);
}
