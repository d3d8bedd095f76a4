-- ===== src/Workload.antt =====
-- internal/workload/types.go: the workloads that the controller manages, and the key that names
-- one in the state document.
pub mod Hpa
pub mod Scale
pub mod Deleter
pub mod Gateway
use kube_workload_lm.Base.{String, ◌<>◌, List, ◌==◌, Bool, ◌||◌}
use kube_workload_lm.Base.Int.{ℤ}
use kube_workload_lm.Base.Dict.{Dict}

-- `type Kind string`
abbrev pub Kind : Type 0
Kind = String

abbrev pub kind_deployment : Kind
kind_deployment = "Deployment"

abbrev pub kind_stateful_set : Kind
kind_stateful_set = "StatefulSet"

pub record Container : Type 0 where
  pub name : String
  pub image : String

pub record Workload : Type 0 where
  pub kind : Kind
  pub namespace : String
  pub name : String
  pub uid : String
  pub labels : Dict String
  pub containers : List Container
  pub current_replicas : ℤ

-- `kind + "/" + namespace + "/" + name`
abbrev pub join_key : String → String → String → String
join_key kind namespace name = kind <> ("/" <> (namespace <> ("/" <> name)))

unfoldable pub key : Workload → String
key w = join_key w.kind w.namespace w.name

-- The test for a supported kind that `KubernetesHPADetector.Evaluate`, `compileTarget` and
-- `validateWorkloadState` make.
abbrev pub is_supported : Kind → Bool
is_supported kind = kind == kind_deployment || kind == kind_stateful_set
