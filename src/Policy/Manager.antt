-- ===== src/Policy/Manager.antt =====
-- internal/policy/manager.go: the newest policy set that was accepted. A mutex makes each of its
-- methods one step. The copies are those of the values; which memory they share is not modelled.
use kube_workload_lm.Base.{ℕ, String, Option, none, some, List, [], ◌∷◌, map, Result, ok, err}
use kube_workload_lm.Schedule.Calendar.{Zones}
use kube_workload_lm.Schedule.Window.{Window}
use kube_workload_lm.Policy.Types.{Matchers, Lifecycle, Policy, PolicySet, Schedule}
use kube_workload_lm.Policy.Decode.{Yaml, DecodeError, decode}

-- `append([]T(nil), source...)`
abbrev pub copy {ℓ} : {A : Type ℓ} → List A → List A
copy [] = []
copy (x ∷ xs) = x ∷ copy xs

abbrev pub clone_window : Window → Window
clone_window w = record w { start_days = copy w.start_days }

abbrev pub clone_schedule : Option Schedule → Option Schedule
clone_schedule none = none
clone_schedule (some s) = some (record s { down_windows = map clone_window (copy s.down_windows) })

-- A copy of an empty slice is nil.
abbrev pub clone_containers : Option (List String) → Option (List String)
clone_containers none = none
clone_containers (some []) = none
clone_containers (some (x ∷ xs)) = some (copy (x ∷ xs))

abbrev pub clone_lifecycle : Lifecycle → Lifecycle
clone_lifecycle l = record l {
  revision = record l.revision { containers = clone_containers l.revision.containers };
}

module _ (M : Matchers) where
  pub record Manager : Type 0 where
    pub current : Option (PolicySet M)

  abbrev pub clone_policy : Policy M → Policy M
  clone_policy p = record p {
    target = record p.target {
      kinds = copy p.target.kinds;
      selector = M.deep_copy p.target.selector;
    };
    lifecycle = clone_lifecycle p.lifecycle;
    schedule = clone_schedule p.schedule;
  }

  -- `clonePolicySet`
  unfoldable pub clone_policy_set : PolicySet M → PolicySet M
  clone_policy_set set = record set { policies = map clone_policy (copy set.policies) }

  -- `Manager.Current`
  unfoldable pub current_set : Manager → Option (PolicySet M)
  current_set manager = elim manager.current [
    | none ↦ none
    | some set ↦ some (clone_policy_set set)
  ]

  abbrev pub accept :
      Result DecodeError (PolicySet M) → Manager → Result DecodeError (Unit {0}) × Manager
  accept (err e) manager = (err e, manager)
  accept (ok compiled) manager = (ok tt, record { current = some compiled })

  abbrev pub reloaded :
      Option (Result DecodeError (PolicySet M))
      → Manager
      → Option (Result DecodeError (Unit {0}) × Manager)
  reloaded none manager = none
  reloaded (some r) manager = some (accept r manager)

  -- `Manager.Reload`
  unfoldable pub reload :
      Zones → Yaml → ℕ → String → Manager → Option (Result DecodeError (Unit {0}) × Manager)
  reload Z Y fuel text manager = reloaded (decode M Z Y fuel text) manager
