-- ===== src/State/Cleanup/Removal.antt =====
-- What `CleanupDeleted` of internal/state/cleanup.go removes.
use kube_workload_lm.Base.{
  suc, ◌+◌, String, ◌==◌, Bool, true, false, Option, none, [], ◌∷◌, ok, ◌≡◌, sym, ap, ok_injective,
  guard_ok, wrap, arith, if◌then◌else◌, length, any, ◌||◌, ◌∙◌, ◌&&◌, bind_ok,
}
use kube_workload_lm.Base.Int.{ℤ, pos, ltb_ℤ}
use kube_workload_lm.Base.Time.{Time, is_zero}
use kube_workload_lm.Base.Dict.{lookup, lookup-remove}
use kube_workload_lm.State.Types.{WorkloadState, States, Document}
use kube_workload_lm.State.Document.{validate_document, normalize_document}
use kube_workload_lm.State.Cleanup.{
  Inventory, CleanupStats, Verdict, incomplete, live, recent, gone, bad_inventory, judge, clean_one,
  clean_loop, invalid_document, time_not_set, negative_retention, cleanup_deleted, Progress,
  no_stats, with_states, or_empty, clean_states,
}

-- One round moves each state to exactly one of the two counts.
clean_one_counts :
    (v : Verdict) (key : String) (s : WorkloadState) (before_round after_round : Progress)
    → clean_one v key s before_round ≡ ok after_round
    → after_round.1.removed + after_round.1.retained
      ≡ suc (before_round.1.removed + before_round.1.retained)
unfolding clean_one
clean_one_counts bad_inventory key s p q h = grind arith
clean_one_counts incomplete key s p q h = grind arith
clean_one_counts live key s p q h = grind arith
clean_one_counts recent key s p q h = grind arith
clean_one_counts gone key s p q h = grind arith

clean_loop_counts :
    (inventory : Inventory) (now : Time) (retention : ℤ) (originals : States)
    (start finish : Progress)
    → clean_loop inventory now retention originals start ≡ ok finish
    → finish.1.removed + finish.1.retained ≡ length originals + (start.1.removed + start.1.retained)
unfolding clean_loop
clean_loop_counts inventory now retention [] start finish h = grind arith
clean_loop_counts inventory now retention ((key, s) ∷ rest) start finish h =
    let (next, e, after) =
      bind_ok (clean_one (judge inventory now retention s) key s start)
        (λ next. clean_loop inventory now retention rest next) finish h in
    let one = clean_one_counts (judge inventory now retention s) key s start next e in
    let more = clean_loop_counts inventory now retention rest next finish after in omega arith

-- Whether some state of the list stands under the key and is taken for gone.
abbrev pub is_gone : Verdict → Bool
is_gone gone = true
is_gone _ = false

abbrev pub removes : Inventory → Time → ℤ → String → States → Bool
removes inventory now retention key =
    any (λ (k, s). k == key && is_gone (judge inventory now retention s))

clean_one-lookup :
    (v : Verdict) (key k : String) (s : WorkloadState) (start next : Progress)
    → clean_one v k s start ≡ ok next
    → lookup key next.0 ≡ (if k == key && is_gone v then none else lookup key start.0)
unfolding clean_one
clean_one-lookup bad_inventory key k s start next h = ground arith
clean_one-lookup incomplete key k s start next h = grind arith
clean_one-lookup live key k s start next h = grind arith
clean_one-lookup recent key k s start next h = grind arith
clean_one-lookup gone key k s start next h = grind (arith, lookup-remove k key start.0)

removed_by_either :
    (x y z : Option WorkloadState) (a b : Bool)
    → y ≡ (if a then none else x)
    → z ≡ (if b then none else y)
    → z ≡ (if a || b then none else x)
removed_by_either x y z true true p q = q
removed_by_either x y z true false p q = q ∙ p
removed_by_either x y z false true p q = q
removed_by_either x y z false false p q = q ∙ p

clean_loop-lookup :
    (inventory : Inventory) (now : Time) (retention : ℤ) (key : String) (originals : States)
    (start finish : Progress)
    → clean_loop inventory now retention originals start ≡ ok finish
    → lookup key finish.0
      ≡ (if removes inventory now retention key originals then none else lookup key start.0)
unfolding clean_loop
clean_loop-lookup inventory now retention key [] start finish h = grind arith
clean_loop-lookup inventory now retention key ((k, s) ∷ rest) start finish h =
    let v = judge inventory now retention s in
    let (next, e, after) =
      bind_ok (clean_one v k s start) (λ next. clean_loop inventory now retention rest next) finish
        h in
    removed_by_either (lookup key start.0) (lookup key next.0) (lookup key finish.0)
      (k == key && is_gone v) (removes inventory now retention key rest)
      (clean_one-lookup v key k s start next e)
      (clean_loop-lookup inventory now retention key rest next finish after)

-- What the loop makes of the originals, on the normalized states.
clean_states-lookup :
    (document : Document) (inventory : Inventory) (now : Time) (retention : ℤ)
    (originals normalized : States) (result : Document) (stats : CleanupStats)
    → clean_states document inventory now retention originals normalized ≡ ok (result, stats)
    → ((key : String)
        → lookup key (or_empty result.states)
          ≡ (if removes inventory now retention key originals then none else lookup key normalized))
      × (stats.removed + stats.retained ≡ length originals)
unfolding clean_states
clean_states-lookup document inventory now retention originals normalized result stats h =
    let (progress, e, after) =
      bind_ok (clean_loop inventory now retention originals (normalized, no_stats))
        (λ progress. ok (with_states document progress)) (result, stats) h in
    let same = ok_injective (with_states document progress) (result, stats) after in
    let states = ap (λ r. or_empty r.0.states) same in
    let counts = ap (λ r. r.1.removed + r.1.retained) same in
    let total =
      clean_loop_counts inventory now retention originals (normalized, no_stats) progress e in
    (
      λ key.
          ap (lookup key) (sym states)
          ∙ clean_loop-lookup inventory now retention key originals (normalized, no_stats) progress
              e,
      omega arith,
    )

-- A clean-up that succeeds keeps every state but those that it takes for gone: under each key the
-- new document has nothing if some state of that key was taken for gone, and what the normalized
-- document has otherwise. Each state is counted once, as removed or as retained.
pub cleanup_deleted-lookup :
    (document : Document) (inventory : Inventory) (now : Time) (retention : ℤ) (result : Document)
    (stats : CleanupStats) (key : String)
    → cleanup_deleted document inventory now retention ≡ ok (result, stats)
    → let originals = or_empty document.states in
      (lookup key (or_empty result.states) ≡ (
        if removes inventory now retention key originals
        then none
        else lookup key (or_empty (normalize_document document).states)))
      × (stats.removed + stats.retained ≡ length originals)
unfolding cleanup_deleted
cleanup_deleted-lookup document inventory now retention result stats key h =
    let (valid, e, later) =
      bind_ok (wrap invalid_document (validate_document document)) _ (result, stats) h in
    let (timed, guarded) = guard_ok (is_zero now) time_not_set _ (result, stats) later in
    let (positive, cleaned) =
      guard_ok (ltb_ℤ retention (pos 0)) negative_retention _ (result, stats) guarded in
    let (found, counted) =
      clean_states-lookup document inventory now retention (or_empty document.states)
        (or_empty (normalize_document document).states) result stats cleaned in
    (found key, counted)
