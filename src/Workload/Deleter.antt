-- ===== src/Workload/Deleter.antt =====
-- internal/workload/deleter.go: the deletion of a workload object, with foreground propagation.
-- The typed client is a parameter over an unknown cluster state.
use kube_workload_lm.Base.{String, none, some, Result, ok, err}
use kube_workload_lm.Workload.{Kind, Workload}
use kube_workload_lm.Workload.Scale.{Resource, resource}

pub data Propagation : Type 0 where
  orphan background foreground : Propagation

pub record DeleteClient : Type 1 where
  pub State : Type 0
  pub Failure : Type 0
  pub delete_object :
      Resource → String → String → Propagation → State → Result Failure (Unit {0}) × State

pub data DeleteError (F : Type 0) : Type 0 where
  delete_failed : F → DeleteError F
  unsupported_kind : Kind → DeleteError F

module _ (C : DeleteClient) where
  -- The API's answer is returned as it is.
  answered :
      Result C.Failure (Unit {0}) × C.State → Result (DeleteError C.Failure) (Unit {0}) × C.State
  answered (ok u, s) = (ok u, s)
  answered (err e, s) = (err (delete_failed e), s)

  unfoldable pub delete : Workload → C.State → Result (DeleteError C.Failure) (Unit {0}) × C.State
  unfolding answered resource
  delete w s = elim (resource w.kind) [
    | none ↦ (err (unsupported_kind w.kind), s)
    | some r ↦ answered (C.delete_object r w.namespace w.name foreground s)
  ]
