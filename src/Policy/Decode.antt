-- ===== src/Policy/Decode.antt =====
-- `Decode` of internal/policy/decode.go. The YAML library and bytes.TrimSpace are the parameter `Yaml`.
use kube_workload_lm.Base.{
  ℕ, String, Bool, Option, none, some, Result, ok, err, wrap, if◌then◌else◌,
}
use kube_workload_lm.Schedule.Calendar.{Zones}
use kube_workload_lm.Policy.Types.{Matchers, PolicySet}
use kube_workload_lm.Policy.Raw.{RawPolicySet, PolicyError}
use kube_workload_lm.Policy.Compile.{compile_policy_set}
use kube_workload_lm.Policy.Nulls.{Nodes, NullError, Answer, reject_nulls}

-- What a second `Decode` of the same decoder finds.
pub data Trailer : Type 0 where
  ended another_document unreadable : Trailer

pub record Yaml : Type 0 where
  pub is_blank : String → Bool
  -- the document node, as an address and what the addresses hold
  pub decode_node : String → Option (Nodes × ℕ)
  -- with unknown fields disallowed
  pub decode_raw : String → Option RawPolicySet
  pub trailer : String → Trailer
  -- `%d`
  pub print : ℕ → String

pub data DecodeError : Type 0 where
  empty_document undecodable multiple_documents trailing_document : DecodeError
  null_value : NullError → DecodeError
  rejected : PolicyError → DecodeError

abbrev pub with_trailer : {A : Type 0} → Trailer → A → Result DecodeError A
with_trailer ended a = ok a
with_trailer another_document a = err multiple_documents
with_trailer unreadable a = err trailing_document

-- `decodeOne`
abbrev pub decode_one : {A : Type 0} → Option A → Trailer → Result DecodeError A
decode_one none trailer = err undecodable
decode_one (some a) trailer = with_trailer trailer a

module _ (M : Matchers) (Z : Zones) (Y : Yaml) where
  abbrev pub compile_decoded : Result DecodeError RawPolicySet → Result DecodeError (PolicySet M)
  compile_decoded (err e) = err e
  compile_decoded (ok raw) = wrap rejected (compile_policy_set M Z raw)

  abbrev pub after_nulls : Answer → String → Option (Result DecodeError (PolicySet M))
  after_nulls none text = none
  after_nulls (some (err e)) text = some (err (null_value e))
  after_nulls (some (ok a)) text =
      some (compile_decoded (decode_one (Y.decode_raw text) (Y.trailer text)))

  abbrev pub decode_document :
      ℕ → Result DecodeError (Nodes × ℕ) → String → Option (Result DecodeError (PolicySet M))
  decode_document fuel (err e) text = some (err e)
  decode_document fuel (ok (nodes, root)) text =
      after_nulls (reject_nulls Y.print nodes fuel root "$") text

  -- `Decode`; without an answer the search for nulls has not ended at this depth.
  unfoldable pub decode : ℕ → String → Option (Result DecodeError (PolicySet M))
  decode fuel text =
      if Y.is_blank text
      then some (err empty_document)
      else decode_document fuel (decode_one (Y.decode_node text) (Y.trailer text)) text
