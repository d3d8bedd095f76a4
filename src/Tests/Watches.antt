-- ===== src/Tests/Watches.antt =====
-- The search for nulls, and the watch of the policies, at a small document with an alias.
use kube_workload_lm.Base.{
  ℕ, zero, suc, ◌<◌, String, ◌==◌, Bool, true, false, Option, none, some, List, [], ◌∷◌, Result, ok,
  err, ◌≡◌, ◌⊎◌, inl, inr, refl, arith, if◌then◌else◌,
}
use kube_workload_lm.Base.Stream.{Turn, closed, arrived}
use kube_workload_lm.Workload.Gateway.{modified}
use kube_workload_lm.Policy.Nulls.{
  Node, Nodes, document_node, mapping_node, sequence_node, scalar_node, alias_node, reject_nulls,
}
use kube_workload_lm.Policy.Nulls.Decides.{IsFlawed, IsRanked, Verdict, reject_nulls_decides}
use kube_workload_lm.Policy.Compile.{compile_policy_set}
use kube_workload_lm.Policy.Decode.{Yaml, ended, decode, undecodable}
use kube_workload_lm.Policy.Manager.{Manager, reload}
use kube_workload_lm.Policy.Watch.{
  PolicyObject, config_map, other_object, RawPolicyEvent, ConfigMapWatcher, PolicyEvent,
  forward_policy, convert, event_reloaded, event_reload_rejected, event_disconnected, reload_failed,
  watch_disconnected,
}
use kube_workload_lm.Policy.Watch.LastGood.{Held, replay, forward_policy-replay}
use kube_workload_lm.Policy.Watch.Sound.{IsSoundSet, forward_policy-IsSoundSet}
use kube_workload_lm.Tests.Cluster.{toy_matchers, one_zone}
use kube_workload_lm.Tests.Policies.{web_document, web_set}

abbrev scalar : String → Node
scalar value = record { kind = scalar_node; tag = "!!str"; value = value; content = []; alias = 0 }

-- A document that is a mapping, whose one value is an alias to a scalar.
abbrev aliased : Nodes
aliased zero = record (scalar "") { kind = document_node; tag = ""; content = 1 ∷ [] }
aliased (suc zero) = record (scalar "") { kind = mapping_node; tag = "!!map"; content = 2 ∷ 3 ∷ [] }
aliased (suc (suc zero)) = scalar "kind"
aliased (suc (suc (suc zero))) = record (scalar "") { kind = alias_node; tag = ""; alias = 4 }
aliased (suc (suc (suc (suc n)))) = scalar "web"

abbrev depth : ℕ → ℕ
depth zero = 3
depth (suc zero) = 2
depth (suc (suc zero)) = 0
depth (suc (suc (suc zero))) = 1
depth (suc (suc (suc (suc n)))) = 0

aliased-IsRanked : IsRanked aliased depth
aliased-IsRanked zero child (inl e) = rw e (omega arith)
aliased-IsRanked zero child (inr h) = grind arith
aliased-IsRanked (suc zero) child (inl e) = rw e (omega arith)
aliased-IsRanked (suc zero) child (inr h) = grind arith
aliased-IsRanked (suc (suc zero)) child h = grind arith
aliased-IsRanked (suc (suc (suc zero))) child (inl e) = rw e (omega arith)
aliased-IsRanked (suc (suc (suc zero))) child (inr h) = grind arith
aliased-IsRanked (suc (suc (suc (suc n)))) child h = grind arith

abbrev toy_print : ℕ → String
toy_print n = "0"

reject_nulls_decides_example : Verdict (reject_nulls toy_print aliased 4 0 "$") (IsFlawed aliased 0)
reject_nulls_decides_example =
    reject_nulls_decides toy_print aliased depth aliased-IsRanked 4 0 "$" (omega arith)

-- The sequence `&x [*x]`: node 0 is the sequence, node 1 its element, an alias to the sequence.
abbrev endless : Nodes
endless zero = record (scalar "") { kind = sequence_node; tag = "!!seq"; content = 1 ∷ [] }
endless (suc n) = record (scalar "") { kind = alias_node; tag = ""; alias = 0 }

-- The search has no end on it: no fuel is enough.
reject_nulls-endless :
    (fuel : ℕ) (path : String)
    → (reject_nulls toy_print endless fuel 0 path ≡ none)
      × (reject_nulls toy_print endless fuel 1 path ≡ none)
unfolding reject_nulls
reject_nulls-endless zero path = (refl, refl)
reject_nulls-endless (suc fuel) path =
    (rw (reject_nulls-endless fuel _).1 refl, (reject_nulls-endless fuel path).0)

abbrev toy_yaml : Yaml
toy_yaml = record {
  is_blank = λ t. t == "";
  decode_node = λ t. if t == "web" then some (aliased, 0) else none;
  decode_raw = λ t. if t == "web" then some web_document else none;
  trailer = λ t. ended;
  print = toy_print;
}

abbrev policy_watcher : ConfigMapWatcher
policy_watcher = record { name = "policies"; data_key = "policies.yaml" }

abbrev status_of : PolicyObject String → String
status_of (config_map name data_map) = "unknown"
status_of (other_object f) = f

abbrev policy_text : String → RawPolicyEvent String
policy_text text = record {
  type = modified;
  object = config_map "policies" (("policies.yaml", text) ∷ []);
}

-- A good text, one that cannot be decoded, and the end of the watch.
abbrev policy_turns : List (Turn (RawPolicyEvent String))
policy_turns =
    arrived (policy_text "web") true ∷ arrived (policy_text "broken") true ∷ closed true ∷ []

abbrev empty_manager : Manager toy_matchers
empty_manager = record { current = none }

forward_policy-replay_example :
    Held toy_matchers one_zone toy_yaml 4 String status_of policy_watcher
      (replay toy_matchers one_zone toy_yaml 4 String status_of policy_watcher policy_turns
        empty_manager)
      (forward_policy toy_matchers one_zone toy_yaml 4 status_of policy_watcher policy_turns
        (some empty_manager))
forward_policy-replay_example =
    forward_policy-replay toy_matchers one_zone toy_yaml 4 String status_of policy_watcher
      policy_turns empty_manager

abbrev web_manager : Manager toy_matchers
web_manager = record { current = some web_set }

abbrev policy_events : List (PolicyEvent String)
policy_events =
    record { type = event_reloaded; error = none }
    ∷ record { type = event_reload_rejected; error = some (reload_failed undecodable) }
    ∷ record { type = event_disconnected; error = some watch_disconnected }
    ∷ []

forward_policy-IsSoundSet_example : IsSoundSet toy_matchers one_zone toy_yaml (some web_set)
unfolding forward_policy convert reload decode reject_nulls compile_policy_set
    kube_workload_lm.Base.Dict.lookup
forward_policy-IsSoundSet_example =
    forward_policy-IsSoundSet toy_matchers one_zone toy_yaml 4 String status_of policy_watcher
      policy_turns empty_manager web_manager policy_events tt refl
