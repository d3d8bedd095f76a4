-- ===== src/Tests/Json.antt =====
-- A JSON library that knows the empty document and one with two states, whose keys it writes in their
-- order.
use native.Mathlib.Decide.{ℕ_discrete}
use kube_workload_lm.Base.{
  String, ◌==◌, eq_iff, ==_of_eq, Bool, true, false, ◌≢◌, ◌⊎◌, inl, inr, ◌||◌, arith, Option, none,
  some, [], ◌∷◌, ◌≡◌, ◌∙◌, sym, refl, if◌then◌else◌,
}
use kube_workload_lm.Base.Int.{pos}
use kube_workload_lm.Base.Dict.{lookup}
use kube_workload_lm.Workload.{kind_deployment}
use kube_workload_lm.Lifecycle.Revision.{source_container_images}
use kube_workload_lm.State.Types.{
  WorkloadState, States, Document, zero_state, new_document, format_version,
}
use kube_workload_lm.State.Document.Same.{IsSame}
use kube_workload_lm.State.Codec.{Json, IsFaithful, ended}

abbrev some_hash : String
some_hash = "sha256:0123456789abcdef0123456789abcdef0123456789abcdef0123456789abcdef"

abbrev state_of : String → WorkloadState
state_of name = record zero_state {
  kind = kind_deployment;
  namespace = "prod";
  name = name;
  workload_uid = "uid-1";
  last_policy_name = "nightly";
  tracking_spec_hash = some_hash;
  revision_hash = some_hash;
  revision = record {
    source = source_container_images;
    containers = record { name = "app"; image = "app:1" } ∷ [];
  };
  first_seen_at = record { instant = pos 400; offset = pos 0 };
  last_seen_at = record { instant = pos 500; offset = pos 0 };
  replica_snapshot = some (record {
    replicas = pos 3;
    captured_at = record { instant = pos 450; offset = pos 0 };
    captured_reason = "active-window";
  });
}

abbrev holding : States → Document
holding states = record { format_version = format_version; states = some states }

abbrev web_first : States
web_first = ("Deployment/prod/web", state_of "web") ∷ ("Deployment/prod/api", state_of "api") ∷ []

abbrev api_first : States
api_first = ("Deployment/prod/api", state_of "api") ∷ ("Deployment/prod/web", state_of "web") ∷ []

abbrev pub web_and_api : Document
web_and_api = holding web_first

abbrev pub api_and_web : Document
api_and_web = holding api_first

pub differ : (s t : String) → (s == t) ≡ false → s ≢ t
differ s t miss e = grind (arith, ==_of_eq s t e)

abbrev decided : (s t : String) (b : Bool) → (s == t) ≡ b → Dec (s ≡ t)
decided s t true hit = yes ((eq_iff s t).0 hit)
decided s t false miss = no (differ s t miss)

unfoldable pub String_discrete : Discrete String
String_discrete s t = decided s t (s == t) refl

unfoldable pub Document-discrete : Discrete Document
Document-discrete = hlevel (ℕ_discrete, String_discrete)

abbrev pub empty_text : String
empty_text = "{}"

abbrev pub pair_text : String
pair_text = "{api, web}"

abbrev pub chosen : {P : Type 0} {A : Type 0} → Dec P → A → A → A
chosen (yes p) a b = a
chosen (no n) a b = b

abbrev pub marshal_known : Document → Option String
marshal_known d = chosen (Document-discrete d new_document) (some empty_text) (
    chosen (Document-discrete d web_and_api) (some pair_text)
      (chosen (Document-discrete d api_and_web) (some pair_text) none))

abbrev pub decode_known : String → Option Document
decode_known t =
    if t == empty_text then some new_document else if t == pair_text then some api_and_web else none

abbrev pub json : Json
json = record {
  marshal = marshal_known;
  is_well_formed = λ t. t == empty_text || t == pair_text;
  decode_wire = decode_known;
  remainder = λ t. ended;
}

abbrev IsKnown : Document → String → Type 0
IsKnown d t =
    ((d ≡ new_document) × (t ≡ empty_text))
    ⊎ ((d ≡ web_and_api) × (t ≡ pair_text))
    ⊎ ((d ≡ api_and_web) × (t ≡ pair_text))

chosen-cases :
    {P A : Type 0} (decision : Dec P) (a b : Option A) (t : A)
    → chosen decision a b ≡ some t
    → (P × (a ≡ some t)) ⊎ (b ≡ some t)
chosen-cases (yes p) a b t h = inl (p, h)
chosen-cases (no n) a b t h = inr h

false_never : false ≡ true → ⊥
false_never h = grind arith

not_none : (t : String) → ◌≡◌ {A = Option String} none (some t) → ⊥
not_none t h = grind arith

same_text : (a b : String) → some a ≡ some b → b ≡ a
same_text a b h = grind arith

marshal_known-IsKnown : (d : Document) (t : String) → marshal_known d ≡ some t → IsKnown d t
marshal_known-IsKnown d t h = elim (chosen-cases (Document-discrete d new_document) _ _ t h) [
  | inl (e, s) ↦ inl (e, same_text _ t s)
  | inr h ↦ elim (chosen-cases (Document-discrete d web_and_api) _ _ t h) [
    | inl (e, s) ↦ inr (inl (e, same_text _ t s))
    | inr h ↦ elim (chosen-cases (Document-discrete d api_and_web) _ _ t h) [
      | inl (e, s) ↦ inr (inr (e, same_text _ t s))
      | inr h ↦ absurd (not_none t h)
    ]
  ]
]

ReadsBack : Document → String → Type 0
ReadsBack d t = (r : Document) × (decode_known t ≡ some r) × IsSame d r

exchanged :
    {A : Type 0} (a b : Bool) (x y z : A)
    → (a ≡ true → b ≡ true → ⊥)
    → (if a then x else if b then y else z) ≡ (if b then y else if a then x else z)
exchanged true true x y z h = absurd (h refl refl)
exchanged true false x y z h = refl
exchanged false b x y z h = refl

not_both :
    (k : String) → ("Deployment/prod/api" == k) ≡ true → ("Deployment/prod/web" == k) ≡ true → ⊥
not_both k a w =
    let e = (eq_iff "Deployment/prod/api" k).0 a ∙ sym ((eq_iff "Deployment/prod/web" k).0 w) in
    false_never (==_of_eq "Deployment/prod/api" "Deployment/prod/web" e)

swapped : (k : String) → lookup k api_first ≡ lookup k web_first
unfolding lookup
swapped k = exchanged _ _ _ _ _ (not_both k)

reads_back : (d : Document) (t : String) → IsKnown d t → ReadsBack d t
unfolding ReadsBack lookup
reads_back d t (inl (e, s)) = rw (e, s) (new_document, refl, (refl, ([], refl, tt, λ k. refl)))
reads_back d t (inr (inl (e, s))) =
    rw (e, s) (api_and_web, refl, (refl, (api_first, refl, (refl, (refl, tt)), swapped)))
reads_back d t (inr (inr (e, s))) =
    rw (e, s) (api_and_web, refl, (refl, (api_first, refl, (refl, (refl, tt)), λ k. refl)))

known_text : (d : Document) (t : String) → IsKnown d t → json.is_well_formed t ≡ true
known_text d t (inl (e, s)) = rw s refl
known_text d t (inr (inl (e, s))) = rw s refl
known_text d t (inr (inr (e, s))) = rw s refl

pub json-IsFaithful : IsFaithful json
unfolding ReadsBack
json-IsFaithful = record {
  well_formed = λ d t v e. known_text d t (marshal_known-IsKnown d t e);
  read_back = λ d t v e. reads_back d t (marshal_known-IsKnown d t e);
  one_value = λ d t v e. refl;
}
