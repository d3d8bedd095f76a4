-- ===== src/State/Store.antt =====
-- internal/state/configmap.go: the store of the state document in one ConfigMap. The typed client,
-- the context, the waiting, the floating-point factor and the capacity observer are the parameter
-- `ConfigMapApi`; the calls of the client are logged with whether they succeeded, newest first (the
-- log is the model's own and steers nothing).
pub mod Retry
pub mod Operations
pub mod Rules
pub mod Attempts
pub mod Careful
pub mod Bounded
pub mod Cell
pub mod RoundTrip
use kube_workload_lm.Base.{
  ℕ, suc, zero, ◌+◌, String, ◌==◌, len, Bool, true, false, not, ◌&&◌, ◌||◌, Option, none, some,
  List, [], ◌∷◌, Result, ok, err, wrap, if◌then◌else◌,
}
use kube_workload_lm.Base.Int.{ℤ, pos, negsuc, ltb_ℤ}
use kube_workload_lm.Base.Dict.{Dict, lookup, insert}
use kube_workload_lm.Base.Step.{Step, give, fail, of_result, and_then, wrap_step}
use kube_workload_lm.State.Types.{Document, new_document}
use kube_workload_lm.State.Capacity.{Capacity, measure_capacity}
use kube_workload_lm.State.Codec.{Json, CodecError, encode_document, decode_document}

abbrev pub config_map_data_key : String
config_map_data_key = "states.json"

-- The parts of a ConfigMap that the store reads or writes; a nil map of data is `none`, and of the
-- binary data only the sizes count. The rest is carried along.
pub record ConfigMap (Meta : Type 0) : Type 0 where
  pub meta : Meta
  pub data_map : Option (Dict String)
  pub binary_sizes : List ℕ

pub record ConflictBackoff (Factor : Type 0) : Type 0 where
  pub steps : ℤ
  pub initial_delay : ℤ
  pub factor : Factor
  pub max_delay : ℤ

pub record ConfigMapApi : Type 1 where
  pub World : Type 0
  pub Failure : Type 0
  pub Meta : Type 0
  pub Factor : Type 0
  pub named : String → String → Meta
  pub get : String → World → Result Failure (ConfigMap Meta) × World
  pub create : ConfigMap Meta → World → Result Failure (ConfigMap Meta) × World
  pub update : ConfigMap Meta → World → Result Failure (ConfigMap Meta) × World
  pub is_not_found : Failure → Bool
  pub is_conflict : Failure → Bool
  pub is_already_exists : Failure → Bool
  -- `ctx.Err()`
  pub context_error : World → Result Failure (Unit {0}) × World
  -- a timer, or the end of the context
  pub await : ℤ → World → Result Failure (Unit {0}) × World
  pub is_below_one : Factor → Bool
  pub one : Factor
  -- `time.Duration(float64(delay) * factor)`
  pub grow : Factor → ℤ → ℤ
  pub observer : Option (Capacity → World → World)

pub record ConfigMapStateStore (C : ConfigMapApi) : Type 0 where
  pub namespace : String
  pub name : String
  pub backoff : ConflictBackoff C.Factor

pub data StoreError (F : Type 0) : Type 0 where
  api context_done : F → StoreError F
  missing_state_data : StoreError F
  encode_failed decode_failed : CodecError → StoreError F
  capacity_exceeded : ℕ → ℕ → StoreError F
  conflict_retries_exhausted load_failed save_failed : StoreError F → StoreError F

pub data ApiCall (Meta : Type 0) : Type 0 where
  got : ConfigMap Meta → ApiCall Meta
  get_refused : ApiCall Meta
  created updated : ConfigMap Meta → Bool → ApiCall Meta

pub record StoreMachine (C : ConfigMapApi) : Type 0 where
  pub world : C.World
  pub calls : List (ApiCall C.Meta)

abbrev pub StoreStep : ConfigMapApi → Type 0 → Type 0
StoreStep C A = Step (StoreMachine C) (StoreError C.Failure) A

-- The loops of `observeCapacity` over the two maps.
unfoldable pub data_bytes : Dict String → ℕ
data_bytes [] = 0
data_bytes ((key, value) ∷ rest) = len value + data_bytes rest

unfoldable pub sum : List ℕ → ℕ
sum [] = 0
sum (n ∷ rest) = n + sum rest

abbrev pub entries : Option (Dict String) → Dict String
entries none = []
entries (some d) = d

abbrev pub size_of : Option String → ℕ
size_of none = 0
size_of (some value) = len value

unfoldable pub capacity_of : {Meta : Type 0} → ConfigMap Meta → Capacity
capacity_of m =
    let d = entries m.data_map in
    measure_capacity (size_of (lookup config_map_data_key d)) (data_bytes d + sum m.binary_sizes)

-- `updated.Data[ConfigMapDataKey] = payload`, on a map that is made where it was nil
unfoldable pub with_payload : {Meta : Type 0} → String → ConfigMap Meta → ConfigMap Meta
with_payload payload m = record m {
  data_map = some (insert config_map_data_key payload (entries m.data_map));
}

abbrev pub decode_payload : {F : Type 0} → Json → Option String → Result (StoreError F) Document
decode_payload J none = err missing_state_data
decode_payload J (some payload) = wrap decode_failed (decode_document J payload)

unfoldable pub decode_config_map :
    {F Meta : Type 0} → Json → ConfigMap Meta → Result (StoreError F) Document
decode_config_map J m = decode_payload J (lookup config_map_data_key (entries m.data_map))

abbrev pub is_retryable : (C : ConfigMapApi) → StoreError C.Failure → Bool
is_retryable C (api f) = C.is_conflict f || C.is_already_exists f
is_retryable C e = false

module _ (C : ConfigMapApi) where
  abbrev pub answered_got :
      Result C.Failure (ConfigMap C.Meta) × C.World
      → List (ApiCall C.Meta)
      → Result C.Failure (ConfigMap C.Meta) × StoreMachine C
  answered_got (ok m, w) calls = (ok m, record { world = w; calls = got m ∷ calls })
  answered_got (err f, w) calls = (err f, record { world = w; calls = get_refused ∷ calls })

  abbrev pub answered_write :
      (Bool → ApiCall C.Meta)
      → Result C.Failure (ConfigMap C.Meta) × C.World
      → List (ApiCall C.Meta)
      → Result (StoreError C.Failure) (ConfigMap C.Meta) × StoreMachine C
  answered_write call (ok m, w) calls = (ok m, record { world = w; calls = call true ∷ calls })
  answered_write call (err f, w) calls =
      (err (api f), record { world = w; calls = call false ∷ calls })

  abbrev pub answered_unit :
      Result C.Failure (Unit {0}) × C.World
      → List (ApiCall C.Meta)
      → Result (StoreError C.Failure) (Unit {0}) × StoreMachine C
  answered_unit (ok a, w) calls = (ok tt, record { world = w; calls = calls })
  answered_unit (err f, w) calls = (err (context_done f), record { world = w; calls = calls })

  unfoldable pub get_config_map : String → Step (StoreMachine C) C.Failure (ConfigMap C.Meta)
  get_config_map name s = answered_got (C.get name s.world) s.calls

  -- What follows `Get`, by whether there is a ConfigMap of the name.
  abbrev pub found_or :
      {A : Type 0}
      → Result C.Failure (ConfigMap C.Meta) × StoreMachine C
      → (ConfigMap C.Meta → StoreStep C A)
      → StoreStep C A
      → Result (StoreError C.Failure) A × StoreMachine C
  found_or (ok m, s) found missing = found m s
  found_or (err f, s) found missing = if C.is_not_found f then missing s else (err (api f), s)

  unfoldable pub looked_up :
      {A : Type 0} → String → (ConfigMap C.Meta → StoreStep C A) → StoreStep C A → StoreStep C A
  unfolding get_config_map
  looked_up name found missing s = found_or (get_config_map name s) found missing

  unfoldable pub create_config_map : ConfigMap C.Meta → StoreStep C (ConfigMap C.Meta)
  create_config_map m s = answered_write (created m) (C.create m s.world) s.calls

  unfoldable pub update_config_map : ConfigMap C.Meta → StoreStep C (ConfigMap C.Meta)
  update_config_map m s = answered_write (updated m) (C.update m s.world) s.calls

  -- `if err := ctx.Err(); err != nil { return err }`
  unfoldable pub check_context : StoreStep C (Unit {0})
  check_context s = answered_unit (C.context_error s.world) s.calls

  -- `sleepContext`
  unfoldable pub sleep_context : ℤ → StoreStep C (Unit {0})
  sleep_context delay s =
      if not (ltb_ℤ (pos 0) delay)
      then (ok tt, s)
      else answered_unit (C.await delay s.world) s.calls

  abbrev pub notify : Option (Capacity → C.World → C.World) → Capacity → C.World → C.World
  notify none capacity w = w
  notify (some observe) capacity w = observe capacity w

  -- `observeCapacity`
  unfoldable pub observe_capacity : ConfigMap C.Meta → StoreStep C Capacity
  observe_capacity m s =
      let capacity = capacity_of m in
      (ok capacity, record s { world = notify C.observer capacity s.world })

  -- `if capacity.Exceeded { return … }`
  abbrev pub within_capacity : Capacity → Result (StoreError C.Failure) (Unit {0})
  within_capacity capacity =
      if capacity.exceeded
      then err (capacity_exceeded capacity.total_bytes capacity.limit_bytes)
      else ok tt

  unfoldable pub next_delay : ConflictBackoff C.Factor → ℤ → ℤ
  next_delay backoff delay =
      let grown = C.grow backoff.factor delay in
      if ltb_ℤ (pos 0) backoff.max_delay && ltb_ℤ backoff.max_delay grown
      then backoff.max_delay
      else grown

  -- The two guards at the start of `retry`.
  unfoldable pub clamp_backoff : ConflictBackoff C.Factor → ConflictBackoff C.Factor
  clamp_backoff backoff = record backoff {
    steps = if ltb_ℤ backoff.steps (pos 1) then pos 1 else backoff.steps;
    factor = if C.is_below_one backoff.factor then C.one else backoff.factor;
  }
