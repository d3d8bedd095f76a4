-- ===== src/State/Document/Same.antt =====
-- Documents with the same contents: the order in which a map is kept does not count.
use kube_workload_lm.Base.{
  String, Bool, true, false, ◌==◌, eq_iff, eq_refl, Option, none, some, [], ◌∷◌, ok, ◌≡◌, refl, sym,
  subst, ap, ◌∙◌, arith, wrap, wrap_ok, bind_ok, guard_ok, not, Bool-cases, inl, inr, if◌then◌else◌,
}
use kube_workload_lm.Base.Int.{ℤ, ◌==ℤ◌}
use kube_workload_lm.Base.Dict.{lookup}
use kube_workload_lm.State.Types.{WorkloadState, States, Document, format_version}
use kube_workload_lm.State.Document.{
  unsupported_format, invalid_state, validate_workload_state, validate_states, validate_document,
}

-- A Go map has each key once.
abbrev pub HasUniqueKeys : States → Type 0
HasUniqueKeys [] = Unit
HasUniqueKeys ((key, s) ∷ rest) = (lookup key rest ≡ none) × HasUniqueKeys rest

abbrev HaveSame : Option States → Option States → Type 0
HaveSame none o = o ≡ none
HaveSame (some states) o =
    (r : States) × (o ≡ some r) × HasUniqueKeys r × ((k : String) → lookup k r ≡ lookup k states)

-- The second document is a Go value that has what the first has: its version, and under each key its
-- state.
abbrev pub IsSame : Document → Document → Type 0
IsSame d r = (r.format_version ≡ d.format_version) × HaveSame d.states r.states

not_some : {A : Type 0} (a : A) → ◌≡◌ {A = Option A} none (some a) → ⊥
not_some a e = grind arith

some_injective : {A : Type 0} (a b : A) → some a ≡ some b → a ≡ b
some_injective a b e = ap (λ o. elim o [ none ↦ a | some c ↦ c ]) e

valid_at :
    (k : String) (s : WorkloadState) (states : States)
    → validate_states states ≡ ok tt
    → lookup k states ≡ some s
    → validate_workload_state k s ≡ ok tt
unfolding validate_states lookup
valid_at k s [] h e = grind arith
valid_at k s ((j, v) ∷ rest) h e =
    let (_, first, others) =
      bind_ok (wrap (invalid_state j) (validate_workload_state j v)) _ tt h in
    let at = λ (b : Bool) (g : (j == k) ≡ b).
      subst (λ b. (if b then some v else lookup k rest) ≡ some s) g e in
    elim (Bool-cases (j == k)) [
      | inl hit ↦
          subst (λ k. validate_workload_state k s ≡ ok tt) ((eq_iff j k).0 hit)
            (subst (λ s. validate_workload_state j s ≡ ok tt) (some_injective v s (at true hit))
              (wrap_ok (invalid_state j) _ tt first))
      | inr miss ↦ valid_at k s rest others (at false miss)
    ]

lookup_below :
    (j k : String) (v s : WorkloadState) (rest : States)
    → lookup j rest ≡ none
    → lookup k rest ≡ some s
    → lookup k ((j, v) ∷ rest) ≡ some s
unfolding lookup
lookup_below j k v s rest unique e = elim (Bool-cases (j == k)) [
  | inl hit ↦ absurd (not_some s (sym unique ∙ ap (λ k. lookup k rest) ((eq_iff j k).0 hit) ∙ e))
  | inr miss ↦ rw miss e
]

valid_of_all :
    (states : States)
    → HasUniqueKeys states
    → ((k : String) (s : WorkloadState)
        → lookup k states ≡ some s
        → validate_workload_state k s ≡ ok tt)
    → validate_states states ≡ ok tt
unfolding validate_states lookup
valid_of_all [] unique h = refl
valid_of_all ((j, v) ∷ rest) unique h =
    let here = h j v (rw (eq_refl j) refl) in
    let others = valid_of_all rest unique.1 λ k s e. h k s (lookup_below j k v s rest unique.0 e) in
    rw here others

valid_states_of_same :
    (v : ℤ) (o p : Option States)
    → HaveSame o p
    → validate_document (record { format_version = v; states = o }) ≡ ok tt
    → validate_document (record { format_version = v; states = p }) ≡ ok tt
unfolding validate_document
valid_states_of_same v none p same h = rw same h
valid_states_of_same v (some states) p (r, e, unique, agree) h =
    let (version, valid) = guard_ok (not (v ==ℤ format_version)) unsupported_format _ tt h in
    let same =
      valid_of_all r unique λ k s there. valid_at k s states valid (sym (agree k) ∙ there) in
    rw (e, version) same

-- What has the same contents as a valid document is valid.
pub valid_of_same :
    (d r : Document) → IsSame d r → validate_document d ≡ ok tt → validate_document r ≡ ok tt
valid_of_same d r (version, same) h = valid_states_of_same r.format_version d.states r.states same (
    subst (λ v. validate_document (record { format_version = v; states = d.states }) ≡ ok tt)
      (sym version) h)
