-- ===== src/State/Document/Normal.antt =====
-- Documents that `ValidateDocument` of internal/state/document.go accepts are in the normal form that
-- `normalizeDocument` makes, and `CleanupDeleted` of internal/state/cleanup.go keeps them accepted.
use kube_workload_lm.Base.{
  String, ◌==◌, not, ◌||◌, Option, none, some, [], ◌∷◌, Result, ok, err, ◌≡◌, refl, sym, ap, ◌∙◌,
  arith, bind_ok, guard_ok, wrap_ok, fail_if, wrap, is_empty, Bool-cases, inl, inr, if◌then◌else◌,
}
use kube_workload_lm.Base.Int.{ℤ, pos, ltb_ℤ, ◌==ℤ◌, eq_of_parts}
use kube_workload_lm.Base.Time.{Time, utc, is_zero, before}
use kube_workload_lm.Base.Dict.{remove}
use kube_workload_lm.Workload.{is_supported}
use kube_workload_lm.Lifecycle.Revision.{source_container_images}
use kube_workload_lm.State.Types.{
  ReplicaSnapshot, WorkloadState, States, Document, state_key, format_version,
}
use kube_workload_lm.State.Document.{
  StateError, unsupported_kind, empty_identity, key_mismatch, empty_policy_name, unsupported_source,
  no_containers, seen_before_first, negative_replicas, time_not_set, time_not_utc,
  unsupported_format, nil_states, invalid_state, validate_hash, validate_utc_time,
  validate_containers, validate_snapshot, validate_workload_state, validate_states,
  validate_document, normalize_snapshot, normalize_state, normalize_states, normalize_document,
}

zero_offset :
    (o : ℤ)
    → ◌≡◌ {A = Result StateError (Unit {0})}
        (if o ==ℤ pos 0 then ok tt else err time_not_utc)
        (ok tt)
    → o ≡ pos 0
zero_offset o h = eq_of_parts o (pos 0) (ground arith)

utc_of_valid : (t : Time) → validate_utc_time t ≡ ok tt → utc t ≡ t
unfolding validate_utc_time
utc_of_valid t h =
    let (_, h₁) = guard_ok (is_zero t) time_not_set _ tt h in
    ap (λ o. record t { offset = o }) (sym (zero_offset t.offset h₁))

normalize_snapshot_valid :
    (o : Option ReplicaSnapshot) → validate_snapshot o ≡ ok tt → normalize_snapshot o ≡ o
unfolding validate_snapshot
normalize_snapshot_valid none h = refl
normalize_snapshot_valid (some s) h =
    let (_, _, h₁) = bind_ok (fail_if (ltb_ℤ s.replicas (pos 0)) negative_replicas) _ tt h in
    let (_, t, _) = bind_ok (validate_utc_time s.captured_at) _ tt h₁ in
    ap (λ t. some (record s { captured_at = t })) (utc_of_valid s.captured_at t)

normalize_state_valid :
    (key : String) (s : WorkloadState)
    → validate_workload_state key s ≡ ok tt
    → normalize_state s ≡ s
unfolding validate_workload_state normalize_state
normalize_state_valid key s h =
    let (_, _, h) = bind_ok (fail_if (not (is_supported s.kind)) unsupported_kind) _ tt h in
    let (_, _, h) =
      bind_ok (fail_if (s.namespace == "" || s.name == "" || s.workload_uid == "") empty_identity) _
        tt h in
    let (_, _, h) = bind_ok (fail_if (not (key == state_key s)) key_mismatch) _ tt h in
    let (_, _, h) = bind_ok (fail_if (s.last_policy_name == "") empty_policy_name) _ tt h in
    let (_, _, h) = bind_ok (validate_hash s.tracking_spec_hash) _ tt h in
    let (_, _, h) = bind_ok (validate_hash s.revision_hash) _ tt h in
    let (_, _, h) =
      bind_ok (fail_if (not (s.revision.source == source_container_images)) unsupported_source) _ tt
        h in
    let (_, _, h) = bind_ok (fail_if (is_empty s.revision.containers) no_containers) _ tt h in
    let (_, _, h) = bind_ok (validate_containers s.revision.containers "") _ tt h in
    let (_, first, h) = bind_ok (validate_utc_time s.first_seen_at) _ tt h in
    let (_, last, h) = bind_ok (validate_utc_time s.last_seen_at) _ tt h in
    let (_, _, snapshot) =
      bind_ok (fail_if (before s.last_seen_at s.first_seen_at) seen_before_first) _ tt h in
    ap
      (λ t. record s {
        first_seen_at = t;
        last_seen_at = utc s.last_seen_at;
        replica_snapshot = normalize_snapshot s.replica_snapshot;
      })
      (utc_of_valid s.first_seen_at first)
    ∙ ap
        (λ t. record s {
          last_seen_at = t;
          replica_snapshot = normalize_snapshot s.replica_snapshot;
        })
        (utc_of_valid s.last_seen_at last)
    ∙ ap (λ o. record s { replica_snapshot = o })
        (normalize_snapshot_valid s.replica_snapshot snapshot)

normalize_states_valid :
    (states : States) → validate_states states ≡ ok tt → normalize_states states ≡ states
unfolding validate_states normalize_states
normalize_states_valid [] h = refl
normalize_states_valid ((key, s) ∷ rest) h =
    let (_, v, h₁) = bind_ok (wrap (invalid_state key) (validate_workload_state key s)) _ tt h in
    let same = normalize_state_valid key s (wrap_ok (invalid_state key) _ tt v) in
    ap (λ s. (key, s) ∷ normalize_states rest) same
    ∙ ap (λ l. (key, s) ∷ l) (normalize_states_valid rest h₁)

normal_states :
    (document : Document) (o : Option States)
    → (elim o [ none ↦ err nil_states | some states ↦ validate_states states ]) ≡ ok tt
    → (elim o [
      | none ↦ document
      | some states ↦ record document { states = some (normalize_states states) }
    ])
      ≡ record document { states = o }
normal_states document none h = ground arith
normal_states document (some states) h =
    ap (λ l. record document { states = some l }) (normalize_states_valid states h)

-- A document that is valid is in normal form: normalizing it changes nothing.
pub normalize_document_valid :
    (document : Document)
    → validate_document document ≡ ok tt
    → normalize_document document ≡ document
unfolding validate_document normalize_document
normalize_document_valid document h =
    let (_, h₁) =
      guard_ok (not (document.format_version ==ℤ format_version)) unsupported_format _ tt h in
    normal_states document document.states h₁

-- What validates without an entry.
pub validate_states-remove :
    (key : String) (states : States)
    → validate_states states ≡ ok tt
    → validate_states (remove key states) ≡ ok tt
unfolding validate_states remove
validate_states-remove key [] h = refl
validate_states-remove key ((k, s) ∷ rest) h =
    let (_, v, h₁) = bind_ok (wrap (invalid_state k) (validate_workload_state k s)) _ tt h in
    let later = validate_states-remove key rest h₁ in
    elim (Bool-cases (k == key)) [ inl hit ↦ rw hit later | inr miss ↦ rw (miss, v) later ]
