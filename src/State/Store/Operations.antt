-- ===== src/State/Store/Operations.antt =====
-- `Load` and `Save` of internal/state/configmap.go.
use kube_workload_lm.Base.{String, some, [], ◌∷◌, wrap}
use kube_workload_lm.Base.Step.{give, of_result, and_then, wrap_step}
use kube_workload_lm.State.Types.{Document, new_document}
use kube_workload_lm.State.Codec.{Json, encode_document}
use kube_workload_lm.State.Store.{
  ConfigMapApi, ConfigMapStateStore, ConfigMap, StoreStep, encode_failed, load_failed, save_failed,
  config_map_data_key, with_payload, decode_config_map, looked_up, create_config_map,
  update_config_map, observe_capacity, within_capacity,
}
use kube_workload_lm.State.Store.Retry.{retry}

module _ (C : ConfigMapApi) (J : Json) (store : ConfigMapStateStore C) where
  abbrev pub fresh : String → ConfigMap C.Meta
  fresh payload = record {
    meta = C.named store.name store.namespace;
    data_map = some ((config_map_data_key, payload) ∷ []);
    binary_sizes = [];
  }

  unfoldable pub create_payload : String → StoreStep C (ConfigMap C.Meta)
  create_payload payload = and_then (observe_capacity C (fresh payload)) λ capacity.
      and_then (of_result (within_capacity C capacity)) λ _. create_config_map C (fresh payload)

  unfoldable pub create_document : Document → StoreStep C (ConfigMap C.Meta)
  create_document document =
      and_then (of_result (wrap encode_failed (encode_document J document))) create_payload

  unfoldable pub get_or_create : StoreStep C (ConfigMap C.Meta)
  get_or_create = looked_up C store.name give (create_document new_document)

  unfoldable pub load_attempt : StoreStep C Document
  load_attempt =
      and_then get_or_create
        λ m. and_then (observe_capacity C m) λ _. of_result (decode_config_map J m)

  unfoldable pub load : StoreStep C Document
  load = wrap_step load_failed (retry C store.backoff load_attempt)

  -- The end of an attempt of `Save`, from the ConfigMap that is to be replaced.
  unfoldable pub replace_payload : String → ConfigMap C.Meta → StoreStep C (ConfigMap C.Meta)
  replace_payload payload m = and_then (of_result (decode_config_map J m)) λ _.
      and_then (observe_capacity C (with_payload payload m)) λ capacity.
        and_then (of_result (within_capacity C capacity))
          λ _. update_config_map C (with_payload payload m)

  unfoldable pub save_attempt : String → StoreStep C (ConfigMap C.Meta)
  save_attempt payload = looked_up C store.name (replace_payload payload) (create_payload payload)

  unfoldable pub save : Document → StoreStep C (Unit {0})
  save document = wrap_step save_failed (
      and_then (of_result (wrap encode_failed (encode_document J document)))
        λ payload. and_then (retry C store.backoff (save_attempt payload)) λ _. give tt)
