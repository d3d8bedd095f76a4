-- ===== src/State/Store/RoundTrip.antt =====
-- `Save` and then `Load` of internal/state/configmap.go.
use kube_workload_lm.Base.{◌∷◌}
use kube_workload_lm.State.Types.{Document}
use kube_workload_lm.State.Codec.{Json}
use kube_workload_lm.State.Store.{ConfigMapApi, ConfigMapStateStore, ConfigMap, StoreMachine, got}

module _ (C : ConfigMapApi) (J : Json) (store : ConfigMapStateStore C) where
  -- The machine after a `Get` that found the ConfigMap.
  abbrev after_get : StoreMachine C → ConfigMap C.Meta → C.World → StoreMachine C
  after_get s m w = record { world = w; calls = got m ∷ s.calls }
