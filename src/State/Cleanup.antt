-- ===== src/State/Cleanup.antt =====
-- internal/state/cleanup.go: the removal of state whose workload is gone, by complete listings only.
pub mod Removal
pub mod Gone
pub mod Validity
use kube_workload_lm.Base.{
  ℕ, suc, String, ◌<>◌, ◌==◌, Bool, Option, none, some, [], ◌∷◌, Result, ok, err, ◌>>=◌, wrap,
  is_set, if◌then◌else◌,
}
use kube_workload_lm.Base.Int.{ℤ, pos, ltb_ℤ}
use kube_workload_lm.Base.Time.{Time, is_zero, before, add}
use kube_workload_lm.Base.Dict.{Dict, lookup, remove}
use kube_workload_lm.State.Types.{WorkloadState, States, Document}
use kube_workload_lm.State.Document.{DocumentError, validate_document, normalize_document}

pub record KindInventory : Type 0 where
  pub list_succeeded : Bool
  pub uids : Dict String

-- The key is the kind.
abbrev pub Inventory : Type 0
Inventory = Dict KindInventory

pub record CleanupStats : Type 0 where
  pub removed : ℕ
  pub retained : ℕ
  pub protected_snapshots : ℕ
  pub incomplete_inventory : ℕ

abbrev pub no_stats : CleanupStats
no_stats = record { removed = 0; retained = 0; protected_snapshots = 0; incomplete_inventory = 0 }

abbrev pub inventory_key : String → String → String
inventory_key namespace name = namespace <> ("/" <> name)

-- What one round of the loop does with a state.
pub data Verdict : Type 0 where
  incomplete live recent gone bad_inventory : Verdict

-- The state's workload is not in the listing under its UID.
abbrev unlisted : Time → ℤ → WorkloadState → Verdict
unlisted now retention s = if before now (add s.last_seen_at retention) then recent else gone

unfoldable pub judge_listed : Option String → Time → ℤ → WorkloadState → Verdict
judge_listed none now retention s = unlisted now retention s
judge_listed (some uid) now retention s =
    if uid == ""
    then bad_inventory
    else if uid == s.workload_uid
    then live
    else unlisted now retention s

-- By the inventory of the state's kind.
unfoldable pub judge_kind : Option KindInventory → Time → ℤ → WorkloadState → Verdict
unfolding judge_listed
judge_kind none now retention s = incomplete
judge_kind (some listed) now retention s =
    if listed.list_succeeded
    then judge_listed (lookup (inventory_key s.namespace s.name) listed.uids) now retention s
    else incomplete

unfoldable pub judge : Inventory → Time → ℤ → WorkloadState → Verdict
unfolding judge_kind
judge inventory now retention s = judge_kind (lookup s.kind inventory) now retention s

pub data CleanupError : Type 0 where
  invalid_document : DocumentError → CleanupError
  time_not_set negative_retention : CleanupError
  empty_uid : String → CleanupError

abbrev pub Progress : Type 0
Progress = States × CleanupStats

abbrev count_live : WorkloadState → CleanupStats → CleanupStats
count_live s stats = record stats {
  retained = suc stats.retained;
  protected_snapshots =
      if is_set s.replica_snapshot
      then suc stats.protected_snapshots
      else stats.protected_snapshots;
}

-- One round, on the cleaned states and the counts so far.
unfoldable pub clean_one :
    Verdict → String → WorkloadState → Progress → Result CleanupError Progress
clean_one bad_inventory key s (cleaned, stats) = err (empty_uid key)
clean_one incomplete key s (cleaned, stats) = ok (
  cleaned,
  record stats {
    retained = suc stats.retained;
    incomplete_inventory = suc stats.incomplete_inventory;
  },
)
clean_one live key s (cleaned, stats) = ok (cleaned, count_live s stats)
clean_one recent key s (cleaned, stats) =
    ok (cleaned, record stats { retained = suc stats.retained })
clean_one gone key s (cleaned, stats) =
    ok (remove key cleaned, record stats { removed = suc stats.removed })

unfoldable pub clean_loop : Inventory → Time → ℤ → States → Progress → Result CleanupError Progress
unfolding clean_one judge
clean_loop inventory now retention [] progress = ok progress
clean_loop inventory now retention ((key, s) ∷ rest) progress =
    clean_one (judge inventory now retention s) key s progress >>= λ next.
    clean_loop inventory now retention rest next

abbrev pub with_states : Document → Progress → Document × CleanupStats
with_states document (cleaned, stats) = (record document { states = some cleaned }, stats)

unfoldable pub clean_states :
    Document
    → Inventory
    → Time
    → ℤ
    → States
    → States
    → Result CleanupError (Document × CleanupStats)
unfolding clean_loop
clean_states document inventory now retention originals normalized =
    clean_loop inventory now retention originals (normalized, no_stats) >>= λ progress.
    ok (with_states document progress)

abbrev pub or_empty : Option States → States
or_empty none = []
or_empty (some states) = states

-- `CleanupDeleted`
unfoldable pub cleanup_deleted :
    Document → Inventory → Time → ℤ → Result CleanupError (Document × CleanupStats)
unfolding clean_states
cleanup_deleted document inventory now retention =
    wrap invalid_document (validate_document document) >>= λ _.
    if is_zero now
    then err time_not_set
    else if ltb_ℤ retention (pos 0)
    then err negative_retention
    else clean_states document inventory now retention (or_empty document.states)
        (or_empty (normalize_document document).states)
