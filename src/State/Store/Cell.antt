-- ===== src/State/Store/Cell.antt =====
-- The store of internal/state/configmap.go as one cell that holds the text of a document: what a load
-- and a save do to it, over an API server that keeps what it is given.
pub mod Refines
use kube_workload_lm.Base.{
  ℕ, suc, String, Bool, true, false, Option, none, some, List, [], ◌∷◌, Result, ok, err, ◌≡◌, ◌⊎◌,
  inl, inr, refl, sym, ap, ◌∙◌, subst, wrap, wrap_ok, ok_injective, arith, eq_refl, if◌then◌else◌,
}
use kube_workload_lm.Base.Dict.{lookup, insert, lookup-insert}
use kube_workload_lm.Base.Int.{ℤ}
use kube_workload_lm.Base.Step.{
  Step, of_result, Post, Hoare, Hoare-and_then, Hoare-give, Hoare-of_result, Hoare-weaken,
  Hoare-wrap_step,
}
use kube_workload_lm.State.Capacity.{Capacity}
use kube_workload_lm.State.Types.{Document, new_document}
use kube_workload_lm.State.Codec.{Json, encode_document, decode_document}
use kube_workload_lm.State.Store.{
  ConfigMapApi, ConfigMapStateStore, ConfigMap, StoreMachine, StoreStep, StoreError, encode_failed,
  decode_failed, decode_config_map, decode_payload, with_payload, entries, notify,
  config_map_data_key,
}
use kube_workload_lm.State.Store.Retry.{retry, further_attempts}
use kube_workload_lm.State.Store.Operations.{
  fresh, create_payload, create_document, get_or_create, load_attempt, load, replace_payload,
  save_attempt, save,
}
use kube_workload_lm.State.Store.Rules.{
  Holds, Hoare-check_context, Hoare-sleep_context, Hoare-observe_capacity, Hoare-create_config_map,
  Hoare-update_config_map, Hoare-looked_up, Hoare-within,
}
use kube_workload_lm.State.Store.Attempts.{Ended, Hoare-retry}

-- What a write that was refused left behind: what was there, or what it was to write.
abbrev pub Torn :
    {Meta : Type 0} → Option (ConfigMap Meta) → ConfigMap Meta → Option (ConfigMap Meta) → Type 0
Torn {Meta} before m after =
    (after ≡ before) ⊎ ((a : ConfigMap Meta) × (after ≡ some a) × (a.data_map ≡ m.data_map))

-- An API server with one writer: it keeps what it is given under the name, apart from the parts that
-- it sets itself. A write that fails may still have come through.
pub record IsServer (C : ConfigMapApi) (name : String) : Type 0 where
  pub stored : C.World → Option (ConfigMap C.Meta)
  pub name_of : C.Meta → String
  pub named_name : (namespace : String) → name_of (C.named name namespace) ≡ name
  pub stored_name : (w : C.World) (m : ConfigMap C.Meta) → stored w ≡ some m → name_of m.meta ≡ name
  pub get_found : (w : C.World) (m : ConfigMap C.Meta) → (C.get name w).0 ≡ ok m → stored w ≡ some m
  pub get_keeps : (w : C.World) → stored (C.get name w).1 ≡ stored w
  pub create_stores :
      (w : C.World) (m a : ConfigMap C.Meta)
      → name_of m.meta ≡ name
      → (C.create m w).0 ≡ ok a
      → (stored (C.create m w).1 ≡ some a) × (a.data_map ≡ m.data_map)
  pub create_refused :
      (w : C.World) (m : ConfigMap C.Meta) (f : C.Failure)
      → name_of m.meta ≡ name
      → (C.create m w).0 ≡ err f
      → Torn (stored w) m (stored (C.create m w).1)
  pub update_stores :
      (w : C.World) (m a : ConfigMap C.Meta)
      → name_of m.meta ≡ name
      → (C.update m w).0 ≡ ok a
      → (stored (C.update m w).1 ≡ some a) × (a.data_map ≡ m.data_map)
  pub update_refused :
      (w : C.World) (m : ConfigMap C.Meta) (f : C.Failure)
      → name_of m.meta ≡ name
      → (C.update m w).0 ≡ err f
      → Torn (stored w) m (stored (C.update m w).1)
  pub context_keeps : (w : C.World) → stored (C.context_error w).1 ≡ stored w
  pub await_keeps : (delay : ℤ) (w : C.World) → stored (C.await delay w).1 ≡ stored w
  pub observer_keeps :
      (capacity : Capacity) (w : C.World) → stored (notify C C.observer capacity w) ≡ stored w

-- The text in the cell.
abbrev pub text_of : {Meta : Type 0} → Option (ConfigMap Meta) → Option String
text_of none = none
text_of (some m) = lookup config_map_data_key (entries m.data_map)

text_of_same :
    {Meta : Type 0} (m n : ConfigMap Meta)
    → m.data_map ≡ n.data_map
    → text_of (some m) ≡ text_of (some n)
text_of_same m n e = ap (λ d. lookup config_map_data_key (entries d)) e

text_of-with_payload :
    {Meta : Type 0} (payload : String) (m : ConfigMap Meta)
    → text_of (some (with_payload payload m)) ≡ some payload
unfolding with_payload
text_of-with_payload payload m =
    lookup-insert config_map_data_key config_map_data_key payload (entries m.data_map)

module _ (C : ConfigMapApi) (J : Json) (store : ConfigMapStateStore C) (V : IsServer C store.name)
    (start : Option String) where
  abbrev pub Text : Option String → Holds C
  Text o s = text_of (V.stored s.world) ≡ o

  -- The cell holds what it held at the start, or the payload.
  abbrev pub Either : String → Holds C
  Either payload s = Text start s ⊎ Text (some payload) s

  pub moved :
      (w w' : C.World) (payload : String)
      → V.stored w' ≡ V.stored w
      → (text_of (V.stored w) ≡ start) ⊎ (text_of (V.stored w) ≡ some payload)
      → (text_of (V.stored w') ≡ start) ⊎ (text_of (V.stored w') ≡ some payload)
  moved w w' payload e h = subst (λ o. (text_of o ≡ start) ⊎ (text_of o ≡ some payload)) (sym e) h

  written :
      (o : Option (ConfigMap C.Meta)) (m a : ConfigMap C.Meta) (payload : String)
      → text_of (some m) ≡ some payload
      → o ≡ some a
      → a.data_map ≡ m.data_map
      → text_of o ≡ some payload
  written o m a payload h e d = ap text_of e ∙ text_of_same a m d ∙ h

  torn :
      (w w' : C.World) (m : ConfigMap C.Meta) (payload : String)
      → text_of (some m) ≡ some payload
      → Torn (V.stored w) m (V.stored w')
      → (text_of (V.stored w) ≡ start) ⊎ (text_of (V.stored w) ≡ some payload)
      → (text_of (V.stored w') ≡ start) ⊎ (text_of (V.stored w') ≡ some payload)
  torn w w' m payload h (inl same) e = moved w w' payload same e
  torn w w' m payload h (inr (a, o, d)) e = inr (written (V.stored w') m a payload h o d)

  pub create_payload-Text :
      (payload : String)
      → Hoare
          (Either payload)
          (create_payload C J store payload)
          (λ m. λ s. Text (some payload) s × (V.stored s.world ≡ some m))
          (λ _. Either payload)
  unfolding create_payload lookup
  create_payload-Text payload =
      Hoare-within C _ _ (λ s p. moved s.world _ payload (V.observer_keeps _ s.world) p)
        (λ total limit s p. p)
        (Hoare-create_config_map C _
          (λ a s p e.
            let (o, d) = V.create_stores s.world _ a (V.named_name store.namespace) e in
            (written _ (fresh C J store payload) a payload refl o d, o))
          (λ f s p e.
            torn s.world _ (fresh C J store payload) payload refl
              (V.create_refused s.world _ f (V.named_name store.namespace) e) p.1))

  replace_payload-Text :
      (payload : String) (m : ConfigMap C.Meta)
      → Hoare
          (λ s. Either payload s × (V.name_of m.meta ≡ store.name))
          (replace_payload C J store payload m)
          (λ _. Text (some payload))
          (λ _. Either payload)
  unfolding replace_payload with_payload
  replace_payload-Text payload m =
      Hoare-and_then _ _
        (Hoare-of_result {Q = λ _ s. Either payload s × (V.name_of m.meta ≡ store.name)} _
          (λ d e s p. p) (λ e h s p. p.0))
        λ _.
          Hoare-within C _ _
            (λ s p. (moved s.world _ payload (V.observer_keeps _ s.world) p.0, p.1))
            (λ total limit s p. p.0)
            (Hoare-update_config_map C _
              (λ a s p e.
                let (o, d) = V.update_stores s.world _ a p.1.1 e in
                written _ (with_payload payload m) a payload (text_of-with_payload payload m) o d)
              (λ f s p e.
                torn s.world _ (with_payload payload m) payload (text_of-with_payload payload m)
                  (V.update_refused s.world _ f p.1.1 e) p.1.0))

  pub save_attempt-Text :
      (payload : String)
      → Hoare
          (Either payload)
          (save_attempt C J store payload)
          (λ _. Text (some payload))
          (λ _. Either payload)
  unfolding save_attempt
  save_attempt-Text payload =
      Hoare-looked_up C {N = Either payload}
        {G = λ m s. Either payload s × (V.name_of m.meta ≡ store.name)} store.name _ _
        (λ m s p e. (
          moved s.world _ payload (V.get_keeps s.world) p,
          V.stored_name s.world m (V.get_found s.world m e),
        ))
        (λ f s p e h. moved s.world _ payload (V.get_keeps s.world) p)
        (λ f s p e h. moved s.world _ payload (V.get_keeps s.world) p)
        (replace_payload-Text payload)
        (Hoare-weaken _ (λ s p. p) (λ m s p. p.0) (λ e s p. p) (create_payload-Text payload))

  pub retry-Text :
      {A : Type 0} {Q : A → Holds C} (I : Holds C) (operation : StoreStep C A)
      → ((s : StoreMachine C) (w : C.World)
          → V.stored w ≡ V.stored s.world
          → I s
          → I (record s { world = w }))
      → Hoare I operation Q (λ _. I)
      → Hoare I (retry C store.backoff operation) Q (λ _. I)
  retry-Text I operation m h =
      Hoare-retry C (λ _. I) operation
        (λ n.
          Hoare-check_context C (λ s. m s _ (V.context_keeps s.world))
            (λ f s. m s _ (V.context_keeps s.world)))
        (λ n delay.
          Hoare-sleep_context C delay (λ s p. p) (λ s. m s _ (V.await_keeps delay s.world))
            (λ f s. m s _ (V.await_keeps delay s.world)))
        (λ n. Hoare-weaken _ (λ s p. p) (λ a s p. p) (λ e s p. (λ _. p, λ _. p)) h) (λ e s _ p. p)
        store.backoff
