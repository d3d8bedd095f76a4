-- ===== src/State/Document.antt =====
-- internal/state/document.go: the invariant of the persisted document, and its normal form. The JSON
-- text itself is encoding/json's.
pub mod Revisions
pub mod Normal
pub mod Same
use Prim.Native.String.{slice}
use text.Mathlib.Text.{starts_with}
use kube_workload_lm.Base.{
  ℕ, String, ◌==◌, len, Bool, true, ◌&&◌, ◌||◌, not, Option, none, some, List, [], ◌∷◌, Result, ok,
  err, ◌>>◌, fail_if, wrap, is_empty, leb, ◌=?◌, str_leb, if◌then◌else◌, codes,
}
use kube_workload_lm.Base.Int.{pos, ltb_ℤ, ◌==ℤ◌}
use kube_workload_lm.Base.Time.{Time, is_zero, utc, before}
use kube_workload_lm.Workload.{Container, is_supported}
use kube_workload_lm.Lifecycle.Revision.{source_container_images}
use kube_workload_lm.State.Types.{
  ReplicaSnapshot, WorkloadState, States, Document, state_key, format_version,
}

pub data StateError : Type 0 where
  unsupported_kind empty_identity key_mismatch empty_policy_name : StateError
  not_sha256 not_lowercase not_hexadecimal : StateError
  unsupported_source no_containers empty_container unsorted_containers : StateError
  time_not_set time_not_utc seen_before_first : StateError
  negative_replicas empty_reason : StateError

pub data DocumentError : Type 0 where
  unsupported_format nil_states : DocumentError
  invalid_state : String → StateError → DocumentError

abbrev is_decimal : ℕ → Bool
is_decimal c = leb b'0' c && leb c b'9'

abbrev is_hex : ℕ → Bool
is_hex c = is_decimal c || leb b'a' c && leb c b'f' || leb b'A' c && leb c b'F'

abbrev is_upper : ℕ → Bool
is_upper c = leb b'A' c && leb c b'Z'

all_codes : (ℕ → Bool) → List ℕ → Bool
all_codes p [] = true
all_codes p (c ∷ cs) = p c && all_codes p cs

-- `validateHash`. Of the texts that strings.ToLower changes, those with a letter outside ASCII are
-- no hexadecimal numbers either.
unfoldable pub validate_hash : String → Result StateError (Unit {0})
unfolding all_codes
validate_hash value =
    if not (starts_with value "sha256:") || not (len value =? 71)
    then err not_sha256
    else let digest = codes (slice value 7 71) in
      if not (all_codes (λ c. not (is_upper c)) digest)
      then err not_lowercase
      else if all_codes is_hex digest
      then ok tt
      else err not_hexadecimal

unfoldable pub validate_utc_time : Time → Result StateError (Unit {0})
validate_utc_time t =
    if is_zero t then err time_not_set else if t.offset ==ℤ pos 0 then ok tt else err time_not_utc

-- The loop over the containers, from the name before.
unfoldable pub validate_containers : List Container → String → Result StateError (Unit {0})
validate_containers [] before = ok tt
validate_containers (c ∷ rest) before =
    if c.name == "" || c.image == ""
    then err empty_container
    else if not (before == "") && str_leb c.name before
    then err unsorted_containers
    else validate_containers rest c.name

unfoldable pub validate_snapshot : Option ReplicaSnapshot → Result StateError (Unit {0})
validate_snapshot none = ok tt
validate_snapshot (some s) = do
  fail_if (ltb_ℤ s.replicas (pos 0)) negative_replicas
  validate_utc_time s.captured_at
  fail_if (s.captured_reason == "") empty_reason

unfoldable pub validate_workload_state : String → WorkloadState → Result StateError (Unit {0})
validate_workload_state key s = do
  fail_if (not (is_supported s.kind)) unsupported_kind
  fail_if (s.namespace == "" || s.name == "" || s.workload_uid == "") empty_identity
  fail_if (not (key == state_key s)) key_mismatch
  fail_if (s.last_policy_name == "") empty_policy_name
  validate_hash s.tracking_spec_hash
  validate_hash s.revision_hash
  fail_if (not (s.revision.source == source_container_images)) unsupported_source
  fail_if (is_empty s.revision.containers) no_containers
  validate_containers s.revision.containers ""
  validate_utc_time s.first_seen_at
  validate_utc_time s.last_seen_at
  fail_if (before s.last_seen_at s.first_seen_at) seen_before_first
  validate_snapshot s.replica_snapshot

unfoldable pub validate_states : States → Result DocumentError (Unit {0})
validate_states [] = ok tt
validate_states ((key, s) ∷ rest) =
    wrap (invalid_state key) (validate_workload_state key s) >> validate_states rest

-- `ValidateDocument`
unfoldable pub validate_document : Document → Result DocumentError (Unit {0})
unfolding validate_states
validate_document document =
    if not (document.format_version ==ℤ format_version)
    then err unsupported_format
    else elim document.states [ none ↦ err nil_states | some states ↦ validate_states states ]

abbrev pub normalize_snapshot : Option ReplicaSnapshot → Option ReplicaSnapshot
normalize_snapshot none = none
normalize_snapshot (some s) = some (record s { captured_at = utc s.captured_at })

unfoldable pub normalize_state : WorkloadState → WorkloadState
normalize_state s = record s {
  first_seen_at = utc s.first_seen_at;
  last_seen_at = utc s.last_seen_at;
  replica_snapshot = normalize_snapshot s.replica_snapshot;
}

unfoldable pub normalize_states : States → States
unfolding normalize_state
normalize_states [] = []
normalize_states ((key, s) ∷ rest) = (key, normalize_state s) ∷ normalize_states rest

unfoldable pub normalize_document : Document → Document
unfolding normalize_states
normalize_document document = elim document.states [
  | none ↦ document
  | some states ↦ record document { states = some (normalize_states states) }
]
