-- ===== src/State/Store/Careful.antt =====
-- What the store of internal/state/configmap.go writes: never over a ConfigMap that it cannot decode,
-- never more than its capacity, and never anything but its own key.
use kube_workload_lm.Base.{
  ℕ, ◌+◌, ◌≤◌, String, len, true, false, Option, none, some, List, [], ◌∷◌, ◌++◌, ok, ◌≡◌, ◌≢◌,
}
use kube_workload_lm.Base.Dict.{Dict, lookup}
use kube_workload_lm.State.Types.{Document}
use kube_workload_lm.State.Codec.{Json, encode_document}
use kube_workload_lm.State.Store.{
  ConfigMapApi, ConfigMapStateStore, ConfigMap, ApiCall, got, get_refused, created, updated,
  entries, decode_config_map,
}
use kube_workload_lm.State.Store.Rules.{Holds}

-- The sizes of all that a ConfigMap holds, whatever its key.
abbrev total : List ℕ → ℕ
total [] = 0
total (n ∷ rest) = n + total rest

abbrev text_sizes : Dict String → List ℕ
text_sizes [] = []
text_sizes ((key, text) ∷ rest) = len text ∷ text_sizes rest

abbrev Fits : {Meta : Type 0} → ConfigMap Meta → Type 0
Fits m = total (text_sizes (entries m.data_map) ++ m.binary_sizes) ≤ 1048576

-- A ConfigMap that has the text under the store's key, and under every other key what is given.
abbrev Carries : {Meta : Type 0} → ConfigMap Meta → String → (String → Option String) → Type 0
Carries m text others =
    (lookup "states.json" (entries m.data_map) ≡ some text)
    × ((k : String) → k ≢ "states.json" → lookup k (entries m.data_map) ≡ others k)

abbrev IsText : Json → String → Type 0
IsText J text = (d : Document) × (encode_document J d ≡ ok text)

module _ (C : ConfigMapApi) (J : Json) where
  -- The ConfigMap that was just read and decodes, but for the text of a document under the store's key.
  abbrev Replaces : ConfigMap C.Meta → List (ApiCall C.Meta) → Type 0
  Replaces m (got n ∷ older) =
      ((d : Document) × (decode_config_map {F = C.Failure} J n ≡ ok d))
      × ((text : String) × IsText J text × Carries m text (λ k. lookup k (entries n.data_map)))
      × (m.meta ≡ n.meta)
      × (m.binary_sizes ≡ n.binary_sizes)
  Replaces m other = true ≡ false

  -- A ConfigMap with the text of a document and nothing else, after a read that found none.
  abbrev Starts : ConfigMap C.Meta → List (ApiCall C.Meta) → Type 0
  Starts m (get_refused ∷ older) =
      ((text : String) × IsText J text × Carries m text (λ k. none)) × (m.binary_sizes ≡ [])
  Starts m other = true ≡ false

  abbrev Absent : List (ApiCall C.Meta) → Type 0
  Absent (get_refused ∷ older) = Unit
  Absent other = true ≡ false

  abbrev Permitted : ApiCall C.Meta → List (ApiCall C.Meta) → Type 0
  Permitted (updated m b) older = Replaces m older × Fits m
  Permitted (created m b) older = Starts m older × Fits m
  Permitted other older = Unit

  -- Each write is permitted after the calls before it.
  abbrev pub IsCareful : List (ApiCall C.Meta) → Type 0
  IsCareful [] = Unit
  IsCareful (c ∷ older) = Permitted c older × IsCareful older

module _ (C : ConfigMapApi) (J : Json) (store : ConfigMapStateStore C) where
  abbrev Careful : Holds C
  Careful s = IsCareful C J s.calls

  -- Nothing was found by the last call.
  abbrev Missing : Holds C
  Missing s = Absent C J s.calls × IsCareful C J s.calls

  abbrev Found : ConfigMap C.Meta → Holds C
  Found m s = (older : List (ApiCall C.Meta)) × (s.calls ≡ got m ∷ older) × IsCareful C J s.calls
