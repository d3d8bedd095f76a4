-- ===== src/Tests/Store.antt =====
-- The store of the state document over an API server in memory that answers some updates with a
-- conflict, and the JSON library of Tests/Json.antt.
use kube_workload_lm.Base.{
  ℕ, zero, suc, String, ◌==◌, Bool, true, false, not, ◌=?◌, Option, none, some, List, [], ◌∷◌,
  Result, ok, err, wrap, ◌≡◌, ◌≢◌, refl, sym, ap, inl, inr, arith, guard_ok, ok_injective,
  if◌then◌else◌, eq_refl,
}
use kube_workload_lm.Base.Int.{pos}
use kube_workload_lm.State.Types.{new_document}
use kube_workload_lm.Tests.Json.{json, empty_text, pair_text, web_and_api}
use kube_workload_lm.State.Types.{Document}
use kube_workload_lm.State.Document.{validate_document, normalize_document, unsupported_format}
use kube_workload_lm.State.Codec.{
  CodecError, decode_document, unmarshal_document, decode_document_valid,
}
use kube_workload_lm.State.Store.{
  StoreError, save_failed, encode_failed, ConfigMapApi, ConfigMap, ConfigMapStateStore,
  StoreMachine, ConflictBackoff, got, updated, config_map_data_key,
}
use kube_workload_lm.Base.Step.{and_then, of_result, wrap_step, give}
use kube_workload_lm.State.Store.Retry.{retry}
use kube_workload_lm.State.Store.Operations.{load, save, save_attempt}
use kube_workload_lm.State.Store.Cell.{IsServer, Torn, text_of}
use kube_workload_lm.State.Store.Cell.Refines.{IsSaved, IsLoaded, save-IsSaved, load-IsLoaded}

pub data ServerFailure : Type 0 where
  not_found conflict already_exists : ServerFailure

-- The ConfigMap, and how many updates are still to meet a conflict.
pub record Server : Type 0 where
  pub held : Option (ConfigMap (Unit {0}))
  pub conflicts : ℕ

abbrev pub Written : Type 0
Written = Result ServerFailure (ConfigMap (Unit {0})) × Server

abbrev pub found : Option (ConfigMap (Unit {0})) → Result ServerFailure (ConfigMap (Unit {0}))
found none = err not_found
found (some m) = ok m

abbrev pub create_in : ConfigMap (Unit {0}) → Option (ConfigMap (Unit {0})) → ℕ → Written
create_in m none n = (ok m, record { held = some m; conflicts = n })
create_in m (some old) n = (err already_exists, record { held = some old; conflicts = n })

abbrev pub update_in : ConfigMap (Unit {0}) → Option (ConfigMap (Unit {0})) → ℕ → Written
update_in m none n = (err not_found, record { held = none; conflicts = n })
update_in m (some old) zero = (ok m, record { held = some m; conflicts = 0 })
update_in m (some old) (suc n) = (err conflict, record { held = some old; conflicts = n })

abbrev pub is_failure_not_found : ServerFailure → Bool
is_failure_not_found not_found = true
is_failure_not_found other = false

abbrev pub is_failure_conflict : ServerFailure → Bool
is_failure_conflict conflict = true
is_failure_conflict other = false

abbrev pub is_failure_exists : ServerFailure → Bool
is_failure_exists already_exists = true
is_failure_exists other = false

abbrev pub memory : ConfigMapApi
memory = record {
  World = Server;
  Failure = ServerFailure;
  Meta = Unit {0};
  Factor = ℕ;
  named = λ name namespace. tt;
  get = λ name w. (found w.held, w);
  create = λ m w. create_in m w.held w.conflicts;
  update = λ m w. update_in m w.held w.conflicts;
  is_not_found = is_failure_not_found;
  is_conflict = is_failure_conflict;
  is_already_exists = is_failure_exists;
  context_error = λ w. (ok tt, w);
  await = λ delay w. (ok tt, w);
  is_below_one = λ n. n =? 0;
  one = 1;
  grow = λ n delay. delay;
  observer = none;
}

abbrev pub state_store : ConfigMapStateStore memory
state_store = record {
  namespace = "lifecycle";
  name = "lifecycle-state";
  backoff = record { steps = pos 5; initial_delay = pos 10; factor = 2; max_delay = pos 160 };
}

found-some :
    (o : Option (ConfigMap (Unit {0}))) (m : ConfigMap (Unit {0})) → found o ≡ ok m → o ≡ some m
found-some none m h = grind arith
found-some (some n) m h = ap some (ok_injective n m h)

created_held :
    (m a : ConfigMap (Unit {0})) (o : Option (ConfigMap (Unit {0}))) (n : ℕ)
    → (create_in m o n).0 ≡ ok a
    → ((create_in m o n).1.held ≡ some a) × (a.data_map ≡ m.data_map)
created_held m a none n h = let e = ok_injective m a h in (ap some e, ap (λ x. x.data_map) (sym e))
created_held m a (some old) n h = grind arith

create_in-Torn :
    (m : ConfigMap (Unit {0})) (f : ServerFailure) (o : Option (ConfigMap (Unit {0}))) (n : ℕ)
    → (create_in m o n).0 ≡ err f
    → Torn o m (create_in m o n).1.held
create_in-Torn m f none n h = grind arith
create_in-Torn m f (some old) n h = inl refl

updated_held :
    (m a : ConfigMap (Unit {0})) (o : Option (ConfigMap (Unit {0}))) (n : ℕ)
    → (update_in m o n).0 ≡ ok a
    → ((update_in m o n).1.held ≡ some a) × (a.data_map ≡ m.data_map)
updated_held m a none n h = grind arith
updated_held m a (some old) zero h =
    let e = ok_injective m a h in (ap some e, ap (λ x. x.data_map) (sym e))
updated_held m a (some old) (suc n) h = grind arith

update_in-Torn :
    (m : ConfigMap (Unit {0})) (f : ServerFailure) (o : Option (ConfigMap (Unit {0}))) (n : ℕ)
    → (update_in m o n).0 ≡ err f
    → Torn o m (update_in m o n).1.held
update_in-Torn m f none n h = inl refl
update_in-Torn m f (some old) zero h = grind arith
update_in-Torn m f (some old) (suc n) h = inl refl

abbrev memory_server : IsServer memory "lifecycle-state"
memory_server = record {
  stored = λ w. w.held;
  name_of = λ m. "lifecycle-state";
  named_name = λ namespace. refl;
  stored_name = λ w m h. refl;
  get_found = λ w m. found-some w.held m;
  get_keeps = λ w. refl;
  create_stores = λ w m a e. created_held m a w.held w.conflicts;
  create_refused = λ w m f e. create_in-Torn m f w.held w.conflicts;
  update_stores = λ w m a e. updated_held m a w.held w.conflicts;
  update_refused = λ w m f e. update_in-Torn m f w.held w.conflicts;
  context_keeps = λ w. refl;
  await_keeps = λ delay w. refl;
  observer_keeps = λ capacity w. refl;
}

-- The ConfigMap holds the empty document and another key; the first update meets a conflict.
abbrev pub stored_map : ConfigMap (Unit {0})
stored_map = record {
  meta = tt;
  data_map = some (("other", "kept") ∷ (config_map_data_key, empty_text) ∷ []);
  binary_sizes = 3 ∷ [];
}

abbrev pub contended : StoreMachine memory
contended = record { world = record { held = some stored_map; conflicts = 1 }; calls = [] }

abbrev saved_map : ConfigMap (Unit {0})
saved_map = record stored_map {
  data_map = some (("other", "kept") ∷ (config_map_data_key, pair_text) ∷ []);
}

-- After the save: two reads, and two updates, of which the first was refused.
abbrev settled : StoreMachine memory
settled = record {
  world = record { held = some saved_map; conflicts = 0 };
  calls = updated saved_map true ∷ got stored_map ∷ updated saved_map false ∷ got stored_map ∷ [];
}

-- What `Save` does from the encoded document on.
abbrev saving :
    Result CodecError String → Result (StoreError ServerFailure) (Unit {0}) × StoreMachine memory
saving r =
    wrap_step save_failed
      (and_then (of_result (wrap encode_failed r)) λ payload.
        and_then (retry memory state_store.backoff (save_attempt memory json state_store payload))
          λ _. give tt)
      contended

decode_document_valid_example :
    (validate_document new_document ≡ ok tt) × (normalize_document new_document ≡ new_document)
unfolding decode_document unmarshal_document validate_document normalize_document
    kube_workload_lm.State.Document.validate_states kube_workload_lm.State.Document.normalize_states
decode_document_valid_example = decode_document_valid json empty_text new_document refl

save-IsSaved_example :
    IsSaved json web_and_api
      (some empty_text)
      (save memory json state_store web_and_api contended).0
      (text_of (save memory json state_store web_and_api contended).1.world.held)
unfolding kube_workload_lm.Base.Dict.lookup
save-IsSaved_example = save-IsSaved memory json state_store memory_server web_and_api contended

load-IsLoaded_example :
    IsLoaded json
      (some empty_text)
      (load memory json state_store contended).0
      (text_of (load memory json state_store contended).1.world.held)
unfolding kube_workload_lm.Base.Dict.lookup
load-IsLoaded_example = load-IsLoaded memory json state_store memory_server contended
