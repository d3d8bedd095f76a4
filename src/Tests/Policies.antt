-- ===== src/Tests/Policies.antt =====
-- The validation of policies at a concrete document, and a revision of two containers.
use kube_workload_lm.Base.{List, ok, ◌≡◌, none, some, [], ◌∷◌, refl, All}
use kube_workload_lm.Base.Int.{pos}
use kube_workload_lm.Workload.{kind_deployment, Container}
use kube_workload_lm.Policy.Types.{PolicySet}
use kube_workload_lm.Policy.Raw.{RawPolicy, RawPolicySet}
use kube_workload_lm.Policy.Compile.{compile_policy_set}
use kube_workload_lm.Policy.Compile.Sound.{IsSound, IsDistinct, compile_policy_set-IsSound}
use kube_workload_lm.Lifecycle.Revision.{select_containers}
use kube_workload_lm.State.Document.{validate_containers}
use kube_workload_lm.State.Document.Revisions.{select_containers_valid}
use kube_workload_lm.Tests.Cluster.{toy_matchers, one_zone}

abbrev web_policy : RawPolicy
web_policy = record {
  name = "web";
  priority = some (pos 10);
  target = some (record {
    kinds = some (kind_deployment ∷ []);
    selector = none;
    name_patterns = some ("web" ∷ []);
  });
  lifecycle = none;
  replicas = none;
  schedule = none;
}

abbrev pub web_document : RawPolicySet
web_document = record {
  api_version = "lifecycle.example.com/v1alpha1";
  kind = "WorkloadLifecyclePolicySet";
  spec = some (record { policies = some (web_policy ∷ []) });
}

abbrev pub web_set : PolicySet toy_matchers
web_set = record {
  api_version = "lifecycle.example.com/v1alpha1";
  kind = "WorkloadLifecyclePolicySet";
  policies =
      record {
        name = "web";
        priority = pos 10;
        target = record {
          kinds = kind_deployment ∷ [];
          selector = record { match_labels = []; match_expressions = [] };
          compiled_selector = none;
          name_patterns = "web" ∷ [];
          compiled_patterns = "^(?:web)$" ∷ [];
        };
        lifecycle = record {
          max_age = pos 259200000000000;
          revision = record { source = "ContainerImages"; containers = none };
          expired_action = "scale";
        };
        replicas = record { scheduled_down = pos 0; expired = pos 0 };
        schedule = none;
      }
      ∷ [];
}

compile_policy_set-IsSound_example :
    All (IsSound toy_matchers one_zone) web_set.policies
    × IsDistinct toy_matchers one_zone [] web_set.policies
unfolding compile_policy_set
compile_policy_set-IsSound_example =
    compile_policy_set-IsSound toy_matchers one_zone web_document web_set refl

abbrev two_containers : List Container
two_containers =
    record { name = "web"; image = "web:2" } ∷ record { name = "app"; image = "app:1" } ∷ []

abbrev sorted_containers : List Container
sorted_containers =
    record { name = "app"; image = "app:1" } ∷ record { name = "web"; image = "web:2" } ∷ []

select_containers_valid_example : validate_containers sorted_containers "" ≡ ok tt
unfolding select_containers
select_containers_valid_example =
    select_containers_valid two_containers none
      (record {
        containers = sorted_containers;
        names = "app" ∷ "web" ∷ [];
        mode = "AllContainers";
      })
      refl
