-- ===== src/State/Cleanup/Validity.antt =====
-- `CleanupDeleted` of internal/state/cleanup.go keeps a document valid.
use kube_workload_lm.Base.{
  String, not, Option, none, some, [], ◌∷◌, ok, err, ◌≡◌, sym, subst, arith, bind_ok, guard_ok,
  wrap_ok, ok_injective, wrap,
}
use kube_workload_lm.Base.Int.{ℤ, pos, ltb_ℤ, ◌==ℤ◌}
use kube_workload_lm.Base.Time.{Time, is_zero}
use kube_workload_lm.State.Types.{WorkloadState, States, Document, format_version}
use kube_workload_lm.State.Document.{
  nil_states, unsupported_format, validate_states, validate_document, normalize_document,
}
use kube_workload_lm.State.Document.Normal.{normalize_document_valid, validate_states-remove}
use kube_workload_lm.State.Cleanup.{
  Inventory, CleanupStats, Verdict, incomplete, live, recent, gone, bad_inventory, judge, clean_one,
  clean_loop, clean_states, Progress, no_stats, or_empty, invalid_document, time_not_set,
  negative_retention, cleanup_deleted,
}

clean_one_valid :
    (v : Verdict) (key : String) (s : WorkloadState) (start next : Progress)
    → clean_one v key s start ≡ ok next
    → validate_states start.0 ≡ ok tt
    → validate_states next.0 ≡ ok tt
unfolding clean_one
clean_one_valid bad_inventory key s start next h valid = ground arith
clean_one_valid incomplete key s start next h valid =
    subst (λ p. validate_states p.0 ≡ ok tt) (ok_injective _ next h) valid
clean_one_valid live key s start next h valid =
    subst (λ p. validate_states p.0 ≡ ok tt) (ok_injective _ next h) valid
clean_one_valid recent key s start next h valid =
    subst (λ p. validate_states p.0 ≡ ok tt) (ok_injective _ next h) valid
clean_one_valid gone key s start next h valid =
    subst (λ p. validate_states p.0 ≡ ok tt) (ok_injective _ next h)
      (validate_states-remove key start.0 valid)

clean_loop_valid :
    (inventory : Inventory) (now : Time) (retention : ℤ) (originals : States)
    (start finish : Progress)
    → clean_loop inventory now retention originals start ≡ ok finish
    → validate_states start.0 ≡ ok tt
    → validate_states finish.0 ≡ ok tt
unfolding clean_loop
clean_loop_valid inventory now retention [] start finish h valid =
    subst (λ p. validate_states p.0 ≡ ok tt) (ok_injective start finish h) valid
clean_loop_valid inventory now retention ((k, s) ∷ rest) start finish h valid =
    let v = judge inventory now retention s in
    let (next, e, after) =
      bind_ok (clean_one v k s start) (λ next. clean_loop inventory now retention rest next) finish
        h in
    clean_loop_valid inventory now retention rest next finish after
      (clean_one_valid v k s start next e valid)

-- A valid document has a format and states, and any other valid states may take their place.
with_states_valid :
    (document : Document) (states : States)
    → validate_document document ≡ ok tt
    → validate_states states ≡ ok tt
    → validate_document (record document { states = some states }) ≡ ok tt
unfolding validate_document
with_states_valid document states h valid =
    let (version, _) =
      guard_ok (not (document.format_version ==ℤ format_version)) unsupported_format _ tt h in
    rw version valid

states_of_valid :
    (document : Document)
    → validate_document document ≡ ok tt
    → validate_states (or_empty document.states) ≡ ok tt
unfolding validate_document
states_of_valid document h =
    let (_, h₁) =
      guard_ok (not (document.format_version ==ℤ format_version)) unsupported_format _ tt h in
    present document.states h₁
  where
    present :
        (o : Option States)
        → (elim o [ none ↦ err nil_states | some states ↦ validate_states states ]) ≡ ok tt
        → validate_states (or_empty o) ≡ ok tt
    present none h = ground arith
    present (some states) h = h

-- A clean-up that succeeds makes of a valid document, and it takes no other, a valid document.
pub cleanup_deleted_valid :
    (document : Document) (inventory : Inventory) (now : Time) (retention : ℤ) (result : Document)
    (stats : CleanupStats)
    → cleanup_deleted document inventory now retention ≡ ok (result, stats)
    → (validate_document document ≡ ok tt) × (validate_document result ≡ ok tt)
unfolding cleanup_deleted clean_states
cleanup_deleted_valid document inventory now retention result stats h =
    let (_, v, later) =
      bind_ok (wrap invalid_document (validate_document document)) _ (result, stats) h in
    let valid = wrap_ok invalid_document (validate_document document) tt v in
    let (timed, guarded) = guard_ok (is_zero now) time_not_set _ (result, stats) later in
    let (positive, cleaned) =
      guard_ok (ltb_ℤ retention (pos 0)) negative_retention _ (result, stats) guarded in
    let normalized = normalize_document document in
    let (progress, e, after) =
      bind_ok
        (clean_loop inventory now retention (or_empty document.states)
          (or_empty normalized.states, no_stats))
        _ (result, stats) cleaned in
    let start =
      subst (λ d. validate_states (or_empty d.states) ≡ ok tt)
        (sym (normalize_document_valid document valid)) (states_of_valid document valid) in
    let final =
      clean_loop_valid inventory now retention (or_empty document.states)
        (or_empty normalized.states, no_stats) progress e start in
    (
      valid,
      subst (λ r. validate_document r.0 ≡ ok tt) (ok_injective _ (result, stats) after)
          (with_states_valid document progress.0 valid final),
    )
