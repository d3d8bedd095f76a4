-- ===== src/State/Codec.antt =====
-- internal/state/document.go: EncodeDocument and DecodeDocument. What encoding/json does with the
-- plain record (`wireDocument`) is the parameter `Json`.
use kube_workload_lm.Base.{
  String, Bool, true, Option, none, some, Result, ok, err, ◌>>=◌, ◌>>◌, wrap, ◌≡◌, ◌∙◌, bind_ok,
  wrap_ok, granted_ok, ok_injective, if◌then◌else◌, subst, sym,
}
use kube_workload_lm.State.Types.{Document}
use kube_workload_lm.State.Document.{DocumentError, validate_document, normalize_document}
use kube_workload_lm.State.Document.Normal.{normalize_document_valid}
use kube_workload_lm.State.Document.Same.{IsSame}

-- What a second `Decode` finds after the first value.
pub data Remainder : Type 0 where
  ended another_value trailing : Remainder

pub record Json : Type 0 where
  -- `json.Marshal` fails on times that RFC 3339 cannot write
  pub marshal : Document → Option String
  -- the pass over the whole text that `json.Unmarshal` begins with
  pub is_well_formed : String → Bool
  -- `Decode` with unknown fields disallowed
  pub decode_wire : String → Option Document
  pub remainder : String → Remainder

pub data CodecError : Type 0 where
  invalid_document : DocumentError → CodecError
  unmarshallable malformed undecodable multiple_values trailing_data : CodecError

abbrev pub or_error : {A : Type 0} → CodecError → Option A → Result CodecError A
or_error e none = err e
or_error e (some a) = ok a

abbrev pub single : Remainder → Result CodecError (Unit {0})
single ended = ok tt
single another_value = err multiple_values
single trailing = err trailing_data

-- `EncodeDocument` with `Document.MarshalJSON`
unfoldable pub encode_document : Json → Document → Result CodecError String
encode_document J document =
    let normalized = normalize_document document in
    wrap invalid_document (validate_document normalized)
    >> or_error unmarshallable (J.marshal normalized)

-- `Document.UnmarshalJSON`
unfoldable pub unmarshal_document : Json → String → Result CodecError Document
unmarshal_document J text = do
  document ← or_error undecodable (J.decode_wire text)
  single (J.remainder text)
  wrap invalid_document (validate_document document)
  ok (normalize_document document)

-- `DecodeDocument`
unfoldable pub decode_document : Json → String → Result CodecError Document
decode_document J text = if J.is_well_formed text then unmarshal_document J text else err malformed

-- What encoding/json promises of the records that the validation accepts: a text that it wrote is
-- one value, and is read back as a record with the same version and the same state under each key. In
-- which order it writes the keys, and the map that is read is kept, is left open.
pub record IsFaithful (J : Json) : Type 0 where
  pub well_formed :
      (d : Document) (t : String)
      → validate_document d ≡ ok tt
      → J.marshal d ≡ some t
      → J.is_well_formed t ≡ true
  pub read_back :
      (d : Document) (t : String)
      → validate_document d ≡ ok tt
      → J.marshal d ≡ some t
      → (r : Document) × (J.decode_wire t ≡ some r) × IsSame d r
  pub one_value :
      (d : Document) (t : String)
      → validate_document d ≡ ok tt
      → J.marshal d ≡ some t
      → J.remainder t ≡ ended

decode_document_ok :
    (J : Json) (t : String) (d : Document)
    → decode_document J t ≡ ok d
    → (w : Document) × (validate_document w ≡ ok tt) × (normalize_document w ≡ d)
unfolding decode_document unmarshal_document
decode_document_ok J t d h =
    let u = granted_ok (J.is_well_formed t) malformed _ d h in
    let (w, _, u) = bind_ok (or_error undecodable (J.decode_wire t)) _ d u in
    let (_, _, u) = bind_ok (single (J.remainder t)) _ d u in
    let (_, v, n) = bind_ok (wrap invalid_document (validate_document w)) _ d u in
    (w, wrap_ok invalid_document _ tt v, ok_injective (normalize_document w) d n)

-- Whatever encoding/json does, a document that is decoded is valid and in its normal form.
pub decode_document_valid :
    (J : Json) (t : String) (d : Document)
    → decode_document J t ≡ ok d
    → (validate_document d ≡ ok tt) × (normalize_document d ≡ d)
decode_document_valid J t d h =
    let (w, v, n) = decode_document_ok J t d h in
    let same = normalize_document_valid w v in
    let e = sym same ∙ n in
    (subst (λ x. validate_document x ≡ ok tt) e v, subst (λ x. normalize_document x ≡ x) e same)
