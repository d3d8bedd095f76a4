-- ===== src/Policy/Watch.antt =====
-- internal/policy/watch.go: the watch of the policy ConfigMap, which reloads the manager. What the API
-- server sends is a parameter.
pub mod LastGood
pub mod Sound
use kube_workload_lm.Base.{
  ℕ, String, ◌==◌, Bool, true, false, not, Option, none, some, List, [], ◌∷◌, Result, ok, err,
  if◌then◌else◌,
}
use kube_workload_lm.Base.Dict.{Dict, lookup}
use kube_workload_lm.Base.Stream.{Turn, cancelled, closed, arrived}
use kube_workload_lm.Schedule.Calendar.{Zones}
use kube_workload_lm.Workload.Gateway.{RawType, added, modified, deleted, other_type, error}
use kube_workload_lm.Policy.Types.{Matchers}
use kube_workload_lm.Policy.Decode.{Yaml, DecodeError}
use kube_workload_lm.Policy.Manager.{Manager, reload}

pub data PolicyEventType : Type 0 where
  event_reloaded event_reload_rejected event_deleted event_error event_disconnected :
      PolicyEventType

pub data PolicyWatchError (F : Type 0) : Type 0 where
  watch_error : F → PolicyWatchError F
  wrong_object unsupported_event no_manager watch_disconnected : PolicyWatchError F
  unexpected_name missing_policy_data : String → PolicyWatchError F
  reload_failed : DecodeError → PolicyWatchError F

pub record PolicyEvent (F : Type 0) : Type 0 where
  pub type : PolicyEventType
  pub error : Option (PolicyWatchError F)

-- The object of a watch event: a ConfigMap with its name and data, or another one.
pub data PolicyObject (F : Type 0) : Type 0 where
  config_map : String → Dict String → PolicyObject F
  other_object : F → PolicyObject F

pub record RawPolicyEvent (F : Type 0) : Type 0 where
  pub type : RawType
  pub object : PolicyObject F

pub record ConfigMapWatcher : Type 0 where
  pub name : String
  pub data_key : String

abbrev pub default_config_map_data_key : String
default_config_map_data_key = "policies.yaml"

-- `NewConfigMapWatcher`
unfoldable pub new_config_map_watcher : String → String → ConfigMapWatcher
new_config_map_watcher name data_key = record {
  name = name;
  data_key = if data_key == "" then default_config_map_data_key else data_key;
}

module _ {F : Type 0} where
  abbrev pub rejection : PolicyWatchError F → PolicyEvent F
  rejection e = record { type = event_reload_rejected; error = some e }

  abbrev pub failure : PolicyWatchError F → PolicyEvent F
  failure e = record { type = event_error; error = some e }

module _ (M : Matchers) (F : Type 0) where
  -- An event for the reader, whether it is the last one, and the manager after it.
  abbrev pub Converted : Type 0
  Converted = Option ((PolicyEvent F × Bool) × Option (Manager M))

  -- What the reader has got, and the manager; without them a conversion has not ended.
  abbrev pub Forwarded : Type 0
  Forwarded = Option (List (PolicyEvent F) × Option (Manager M))

module _ (M : Matchers) (Z : Zones) (Y : Yaml) (fuel : ℕ) {F : Type 0}
    (from_object : PolicyObject F → F) (watcher : ConfigMapWatcher) where
  abbrev pub after_reload : Option (Result DecodeError (Unit {0}) × Manager M) → Converted M F
  after_reload none = none
  after_reload (some (err e, manager)) = some ((rejection (reload_failed e), false), some manager)
  after_reload (some (ok a, manager)) =
      some ((record { type = event_reloaded; error = none }, false), some manager)

  abbrev pub convert_payload : Option String → Option (Manager M) → Converted M F
  convert_payload none manager =
      some ((rejection (missing_policy_data watcher.data_key), false), manager)
  convert_payload (some text) none = some ((rejection no_manager, false), none)
  convert_payload (some text) (some manager) = after_reload (reload M Z Y fuel text manager)

  abbrev pub convert_typed : RawType → Dict String → Option (Manager M) → Converted M F
  convert_typed added data_map manager = convert_payload (lookup watcher.data_key data_map) manager
  convert_typed modified data_map manager =
      convert_payload (lookup watcher.data_key data_map) manager
  convert_typed deleted data_map manager =
      some ((record { type = event_deleted; error = none }, false), manager)
  convert_typed other_type data_map manager = some ((failure unsupported_event, true), manager)
  convert_typed error data_map manager = some ((failure unsupported_event, true), manager)

  abbrev pub convert_object : RawType → PolicyObject F → Option (Manager M) → Converted M F
  convert_object type (other_object f) manager = some ((failure wrong_object, true), manager)
  convert_object type (config_map name data_map) manager =
      if not (name == watcher.name)
      then some ((rejection (unexpected_name name), false), manager)
      else convert_typed type data_map manager

  abbrev pub convert_type : RawType → PolicyObject F → Option (Manager M) → Converted M F
  convert_type error object manager =
      some ((failure (watch_error (from_object object)), true), manager)
  convert_type type object manager = convert_object type object manager

  -- `convert`
  unfoldable pub convert : RawPolicyEvent F → Option (Manager M) → Converted M F
  convert raw manager = convert_type raw.type raw.object manager

  abbrev pub deliver : PolicyEvent F → Forwarded M F → Forwarded M F
  deliver event none = none
  deliver event (some (events, manager)) = some (event ∷ events, manager)

  abbrev pub pass_on : Converted M F → Bool → (Option (Manager M) → Forwarded M F) → Forwarded M F
  pass_on none sent rest = none
  pass_on (some ((event, terminal), manager)) false rest = some ([], manager)
  pass_on (some ((event, true), manager)) true rest = some (event ∷ [], manager)
  pass_on (some ((event, false), manager)) true rest = deliver event (rest manager)

  -- `forward`
  unfoldable pub forward_policy :
      List (Turn (RawPolicyEvent F)) → Option (Manager M) → Forwarded M F
  forward_policy [] manager = some ([], manager)
  forward_policy (cancelled ∷ rest) manager = some ([], manager)
  forward_policy (closed true ∷ rest) manager =
      some (record { type = event_disconnected; error = some watch_disconnected } ∷ [], manager)
  forward_policy (closed false ∷ rest) manager = some ([], manager)
  forward_policy (arrived raw sent ∷ rest) manager =
      pass_on (convert raw manager) sent (forward_policy rest)
