-- ===== src/Tests/Cluster.antt =====
-- A cluster in memory: collaborators that always succeed, a fixed clock, one time zone, and toy
-- versions of the hashes, the selectors and the patterns.
use kube_workload_lm.Base.{
  String, ◌<>◌, ◌==◌, true, false, none, some, [], ◌∷◌, ok, ap, sym, ok_injective,
}
use kube_workload_lm.Base.Int.{ℤ, pos}
use kube_workload_lm.Base.Time.{Time}
use kube_workload_lm.Workload.{Workload, key, kind_deployment}
use kube_workload_lm.Workload.Hpa.{HpaEvaluation, allowed_reason}
use kube_workload_lm.Lifecycle.Revision.{Hasher, source_container_images}
use kube_workload_lm.Schedule.Calendar.{Zones, Civil, monday, sunday}
use kube_workload_lm.Schedule.Window.{Window}
use kube_workload_lm.Policy.Types.{LabelSelector, Matchers, Policy, PolicySet, Target}
use kube_workload_lm.State.Types.{Document, new_document}
use kube_workload_lm.Controller.Effects.{Collaborators, Machine}
use kube_workload_lm.Controller.Durable.{ReadsCopy}

pub record Cluster : Type 0 where
  pub document : Document
  pub replicas : ℤ

abbrev pub noon : Time
noon = record { instant = pos 1000; offset = pos 0 }

abbrev admitted : HpaEvaluation String
admitted = record { allowed = true; reason = allowed_reason; conflicting = none; error = none }

-- The collaborators under an evaluation.
abbrev collaborators : HpaEvaluation String → Collaborators
collaborators evaluation = record {
  World = Cluster;
  Failure = String;
  evaluate = λ current w. (evaluation, w);
  now = λ w. (noon, w);
  load = λ w. (ok w.document, w);
  save = λ document w. (ok tt, record w { document = document });
  read = λ current w. (ok (record current { current_replicas = w.replicas }), w);
  update = λ current replicas w. (ok tt, record w { replicas = replicas });
  delete = λ current w. (ok tt, w);
}

abbrev pub memory : Collaborators
memory = collaborators admitted

pub memory_reads : ReadsCopy memory
unfolding key
memory_reads = record { same_key = λ current live w e. ap key (sym (ok_injective _ live e)) }

abbrev pub toy_hasher : Hasher
toy_hasher = record {
  hash_tracking = λ tracking. ok ("sha256:" <> tracking.mode);
  hash_containers = λ containers. ok "sha256:images";
}

abbrev pub night : Civil
night = record { hour = 2; minute = 30; weekday = monday; date = "2024-01-01" }

abbrev pub evening : Civil
evening = record { hour = 22; minute = 0; weekday = sunday; date = "2023-12-31" }

abbrev pub one_zone : Zones
one_zone = record {
  Location = Unit;
  load = λ zone. some tt;
  civil = λ location now. night;
  day_before = λ location now. evening;
}

abbrev pub toy_matchers : Matchers
toy_matchers = record {
  Selector = LabelSelector;
  deep_copy = λ selector. selector;
  compile_selector = λ selector. some selector;
  selector_matches = λ selector labels. false;
  Pattern = String;
  compile_pattern = λ pattern. some pattern;
  match_string = λ pattern name. pattern == name;
  parse_duration = λ text. some (pos 3600);
}

abbrev pub web : Workload
web = record {
  kind = kind_deployment;
  namespace = "prod";
  name = "web";
  uid = "uid-1";
  labels = [];
  containers = record { name = "app"; image = "app:1" } ∷ [];
  current_replicas = pos 3;
}

abbrev pub sunday_night : Window
sunday_night = record {
  name = "night";
  start_days = "SUN" ∷ [];
  start = "22:00";
  end = "06:00";
  all_day = false;
}

abbrev pub web_target : Target toy_matchers
web_target = record {
  kinds = kind_deployment ∷ [];
  selector = record { match_labels = []; match_expressions = [] };
  compiled_selector = none;
  name_patterns = "web" ∷ [];
  compiled_patterns = "web" ∷ [];
}

abbrev pub nightly : Policy toy_matchers
nightly = record {
  name = "nightly";
  priority = pos 10;
  target = web_target;
  lifecycle = record {
    max_age = pos 3600;
    revision = record { source = source_container_images; containers = none };
    expired_action = "scale";
  };
  replicas = record { scheduled_down = pos 1; expired = pos 0 };
  schedule = some (record { time_zone = "UTC"; down_windows = sunday_night ∷ [] });
}

abbrev pub policies : PolicySet toy_matchers
policies = record {
  api_version = "lifecycle.example.com/v1alpha1";
  kind = "WorkloadLifecyclePolicySet";
  policies = nightly ∷ record nightly { name = "fallback"; priority = pos 1 } ∷ [];
}

-- Nothing has been called yet.
abbrev pub untouched : Machine memory
untouched = record { world = record { document = new_document; replicas = pos 3 }; calls = [] }
