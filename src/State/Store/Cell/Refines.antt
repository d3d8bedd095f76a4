-- ===== src/State/Store/Cell/Refines.antt =====
-- `Load` and `Save` of internal/state/configmap.go refine one cell that holds a text: a save puts in
-- the text of its document, a load reads the cell, and whatever fails leaves one of the two texts.
use kube_workload_lm.Base.{
  String, Option, none, some, Result, ok, err, ◌≡◌, ◌⊎◌, inl, inr, refl, sym, ap, ◌∙◌, subst,
  wrap_ok, ok_injective, arith,
}
use kube_workload_lm.Base.Step.{
  Post, Hoare, Hoare-and_then, Hoare-give, Hoare-of_result, Hoare-weaken, Hoare-wrap_step,
  Hoare-given,
}
use kube_workload_lm.State.Types.{Document, new_document}
use kube_workload_lm.State.Codec.{Json, encode_document, decode_document}
use kube_workload_lm.State.Store.{
  ConfigMapApi, ConfigMapStateStore, ConfigMap, StoreMachine, StoreError, encode_failed,
  decode_failed, decode_config_map, decode_payload,
}
use kube_workload_lm.State.Store.Operations.{
  create_document, get_or_create, load_attempt, load, save_attempt, save,
}
use kube_workload_lm.State.Store.Rules.{Holds, Hoare-observe_capacity, Hoare-looked_up}
use kube_workload_lm.State.Store.Cell.{
  IsServer, text_of, moved, create_payload-Text, save_attempt-Text, retry-Text,
}

module _ (C : ConfigMapApi) (J : Json) (store : ConfigMapStateStore C) (V : IsServer C store.name)
    (start : Option String) where
  abbrev Text : Option String → Holds C
  Text o s = text_of (V.stored s.world) ≡ o

  abbrev Either : String → Holds C
  Either payload s = Text start s ⊎ Text (some payload) s

  -- The cell holds what it held at the start, or the text of the document.
  abbrev Changes : Document → Holds C
  Changes d s =
      Text start s
      ⊎ ((payload : String) × (encode_document J d ≡ ok payload) × Text (some payload) s)

  Either-Changes :
      (d : Document) (payload : String) (s : StoreMachine C)
      → encode_document J d ≡ ok payload
      → Either payload s
      → Changes d s
  Either-Changes d payload s h (inl e) = inl e
  Either-Changes d payload s h (inr e) = inr (payload, h, e)

  Changes-Either :
      (d : Document) (payload : String) (s : StoreMachine C)
      → encode_document J d ≡ ok payload
      → Changes d s
      → Either payload s
  Changes-Either d payload s h (inl e) = inl e
  Changes-Either d payload s h (inr (p, k, e)) =
      inr (e ∙ ap some (ok_injective p payload (sym k ∙ h)))

  save-Text :
      (d : Document)
      → Hoare
          (Text start)
          (save C J store d)
          (λ _ s. (payload : String) × (encode_document J d ≡ ok payload) × Text (some payload) s)
          (λ _. Changes d)
  unfolding save
  save-Text d = Hoare-wrap_step _ _ (
      Hoare-and_then _ _
        (Hoare-of_result {Q = λ payload s. (encode_document J d ≡ ok payload) × Text start s} _
          (λ a e s p. (wrap_ok encode_failed _ a e, p)) (λ e h s p. inl p))
        λ payload.
          Hoare-and_then {Q = λ _ s. (encode_document J d ≡ ok payload) × Text (some payload) s} _ _
            (Hoare-given _ λ e.
              Hoare-weaken _ (λ s p. inl p) (λ a s p. (e, p)) (λ f s. Either-Changes d payload s e)
                (retry-Text C J store V start (Either payload) (save_attempt C J store payload)
                  (λ s w m. moved C J store V start s.world w payload m)
                  (save_attempt-Text C J store V start payload)))
            λ _. Hoare-give tt λ s p. (payload, p.0, p.1))

  create_document-Changes :
      (d : Document)
      → Hoare
          (Changes d)
          (create_document C J store d)
          (λ m s. Changes d s × (V.stored s.world ≡ some m))
          (λ _. Changes d)
  unfolding create_document
  create_document-Changes d =
      Hoare-and_then _ _
        (Hoare-of_result {Q = λ payload s. (encode_document J d ≡ ok payload) × Changes d s} _
          (λ a e s p. (wrap_ok encode_failed _ a e, p)) (λ e h s p. p))
        λ payload. Hoare-given _ λ e.
          Hoare-weaken _ (λ s. Changes-Either d payload s e) (λ m s p. (inr (payload, e, p.0), p.1))
            (λ f s. Either-Changes d payload s e) (create_payload-Text C J store V start payload)

  changes_kept :
      (d : Document) (s : StoreMachine C) (w : C.World)
      → V.stored w ≡ V.stored s.world
      → Changes d s
      → Changes d (record s { world = w })
  changes_kept d s w e h =
      subst
        (λ o.
          (text_of o ≡ start)
          ⊎ ((payload : String) × (encode_document J d ≡ ok payload) × (text_of o ≡ some payload)))
        (sym e) h

  -- The document is decoded from the text of the cell.
  abbrev Shows : Document → Holds C
  Shows d s = (text : String) × Text (some text) s × (decode_document J text ≡ ok d)

  decode_payload_text :
      (o : Option String) (d : Document)
      → decode_payload {F = C.Failure} J o ≡ ok d
      → (text : String) × (o ≡ some text) × (decode_document J text ≡ ok d)
  decode_payload_text none d h = grind arith
  decode_payload_text (some text) d h = (text, refl, wrap_ok decode_failed _ d h)

  decode_config_map_text :
      (m : ConfigMap C.Meta) (d : Document) (s : StoreMachine C)
      → decode_config_map {F = C.Failure} J m ≡ ok d
      → V.stored s.world ≡ some m
      → Shows d s
  unfolding decode_config_map
  decode_config_map_text m d s h e =
      let (text, found, decoded) = decode_payload_text (text_of (some m)) d h in
      (text, ap text_of e ∙ found, decoded)

  load_attempt-Shows :
      Hoare
        (Changes new_document)
        (load_attempt C J store)
        (λ d s. Changes new_document s × Shows d s)
        (λ _. Changes new_document)
  unfolding load_attempt get_or_create
  load_attempt-Shows =
      Hoare-and_then {Q = λ m s. Changes new_document s × (V.stored s.world ≡ some m)} _ _
        (Hoare-looked_up C {N = Changes new_document}
          {G = λ m s. Changes new_document s × (V.stored s.world ≡ some m)} store.name _ _
          (λ m s p e. (
            changes_kept new_document s _ (V.get_keeps s.world) p,
            V.get_keeps s.world ∙ V.get_found s.world m e,
          ))
          (λ f s p e h. changes_kept new_document s _ (V.get_keeps s.world) p)
          (λ f s p e h. changes_kept new_document s _ (V.get_keeps s.world) p)
          (λ m. Hoare-give m λ s p. p) (create_document-Changes new_document))
        λ m.
          Hoare-and_then {Q = λ _ s. Changes new_document s × (V.stored s.world ≡ some m)} _ _
            (Hoare-observe_capacity C m λ s p. (
              changes_kept new_document s _ (V.observer_keeps _ s.world) p.0,
              V.observer_keeps _ s.world ∙ p.1,
            ))
            λ c.
              Hoare-of_result _ (λ d e s p. (p.0, decode_config_map_text m d s e p.1))
                (λ e h s p. p.0)

  load-Shows :
      Hoare
        (Text start)
        (load C J store)
        (λ d s. Changes new_document s × Shows d s)
        (λ _. Changes new_document)
  unfolding load
  load-Shows = Hoare-wrap_step _ _ (
      Hoare-weaken _ (λ s p. inl p) (λ d s p. p) (λ e s p. p)
        (retry-Text C J store V start (Changes new_document) (load_attempt C J store)
          (changes_kept new_document) load_attempt-Shows))

-- A save, on the cell: with the text before, the result, and the text after.
abbrev pub IsSaved :
    {F : Type 0} → Json → Document → Option String → Result F (Unit {0}) → Option String → Type 0
IsSaved J d before (ok a) after =
    (text : String) × (encode_document J d ≡ ok text) × (after ≡ some text)
IsSaved J d before (err e) after =
    (after ≡ before) ⊎ ((text : String) × (encode_document J d ≡ ok text) × (after ≡ some text))

-- A load, on the cell; it may put a new document there.
abbrev pub IsLoaded :
    {F : Type 0} → Json → Option String → Result F Document → Option String → Type 0
IsLoaded J before (ok d) after =
    ((after ≡ before)
      ⊎ ((text : String) × (encode_document J new_document ≡ ok text) × (after ≡ some text)))
    × ((text : String) × (after ≡ some text) × (decode_document J text ≡ ok d))
IsLoaded J before (err e) after =
    (after ≡ before)
    ⊎ ((text : String) × (encode_document J new_document ≡ ok text) × (after ≡ some text))

module _ (C : ConfigMapApi) (J : Json) (store : ConfigMapStateStore C)
    (V : IsServer C store.name) where
  Post-IsSaved :
      (d : Document) (before : Option String)
      (r : Result (StoreError C.Failure) (Unit {0}) × StoreMachine C)
      → Post
          (λ _ s.
            (text : String) × (encode_document J d ≡ ok text)
            × (text_of (V.stored s.world) ≡ some text))
          (λ _. Changes C J store V before d)
          r
      → IsSaved J d before r.0 (text_of (V.stored r.1.world))
  Post-IsSaved d before (ok a, s) p = p
  Post-IsSaved d before (err e, s) p = p

  Post-IsLoaded :
      (before : Option String) (r : Result (StoreError C.Failure) Document × StoreMachine C)
      → Post
          (λ d s. Changes C J store V before new_document s × Shows C J store V before d s)
          (λ _. Changes C J store V before new_document)
          r
      → IsLoaded J before r.0 (text_of (V.stored r.1.world))
  Post-IsLoaded before (ok d, s) p = p
  Post-IsLoaded before (err e, s) p = p

  -- Over an API server that keeps what it is given, and nobody else writing, a save that succeeds
  -- leaves the text of its document in the ConfigMap, and one that fails leaves this text or the one
  -- before.
  pub save-IsSaved :
      (d : Document) (s : StoreMachine C)
      → IsSaved J d
          (text_of (V.stored s.world))
          (save C J store d s).0
          (text_of (V.stored (save C J store d s).1.world))
  save-IsSaved d s =
      Post-IsSaved d (text_of (V.stored s.world)) (save C J store d s)
        ((save-Text C J store V (text_of (V.stored s.world)) d).at s refl)

  -- Over such a server, a load that succeeds returns what the text in the ConfigMap decodes to;
  -- whether it succeeds or not, that text is the one from before or the text of a new document.
  pub load-IsLoaded :
      (s : StoreMachine C)
      → IsLoaded J
          (text_of (V.stored s.world))
          (load C J store s).0
          (text_of (V.stored (load C J store s).1.world))
  load-IsLoaded s =
      Post-IsLoaded (text_of (V.stored s.world)) (load C J store s)
        ((load-Shows C J store V (text_of (V.stored s.world))).at s refl)
