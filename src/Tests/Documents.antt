-- ===== src/Tests/Documents.antt =====
-- The clean-up of a document with one state, at a listing without workloads.
use kube_workload_lm.Base.{
  String, true, false, none, some, [], ◌∷◌, ok, ◌≡◌, ◌≢◌, ◌↔◌, ◌+◌, refl, if◌then◌else◌, length,
}
use kube_workload_lm.Base.Int.{pos, ◌+ℤ◌}
use kube_workload_lm.Base.Dict.{lookup, remove}
use kube_workload_lm.Workload.{kind_deployment}
use kube_workload_lm.Lifecycle.Revision.{source_container_images}
use kube_workload_lm.Base.Time.{before, add}
use kube_workload_lm.State.Cleanup.{KindInventory}
use kube_workload_lm.State.Types.{WorkloadState, Document}
use kube_workload_lm.State.Document.{
  normalize_document, validate_document, validate_workload_state, validate_hash,
  validate_containers, validate_utc_time, validate_snapshot,
}
use kube_workload_lm.State.Cleanup.{
  Inventory, CleanupStats, judge, gone, inventory_key, cleanup_deleted, or_empty,
}
use kube_workload_lm.State.Cleanup.Gone.{judge_gone}
use kube_workload_lm.State.Cleanup.Removal.{cleanup_deleted-lookup, removes}
use kube_workload_lm.Tests.Cluster.{noon, web}
use kube_workload_lm.State.Document.Normal.{normalize_document_valid}
use kube_workload_lm.State.Cleanup.Validity.{cleanup_deleted_valid}
use kube_workload_lm.Tests.Components.{known}

abbrev no_deployments : Inventory
no_deployments = (kind_deployment, record { list_succeeded = true; uids = [] }) ∷ []

abbrev digest : String
digest = "sha256:0123456789abcdef0123456789abcdef0123456789abcdef0123456789abcdef"

abbrev stored : WorkloadState
stored = record known {
  last_policy_name = "nightly";
  tracking_spec_hash = digest;
  revision_hash = digest;
  revision = record { source = source_container_images; containers = web.containers };
}

abbrev one_state : Document
one_state = record { format_version = pos 1; states = some (("Deployment/prod/web", stored) ∷ []) }

-- The clean-up of that document.
abbrev cleaned : Document × CleanupStats
cleaned = (
  record { format_version = pos 1; states = some [] },
  record { removed = 1; retained = 0; protected_snapshots = 0; incomplete_inventory = 0 },
)

judge_gone_example : (judge no_deployments noon (pos 100) known ≡ gone) ↔ (
    (listed : KindInventory) × (lookup known.kind no_deployments ≡ some listed)
    × (listed.list_succeeded ≡ true)
    × (lookup (inventory_key known.namespace known.name) listed.uids ≢ some "")
    × (lookup (inventory_key known.namespace known.name) listed.uids ≢ some known.workload_uid)
    × (before noon (add known.last_seen_at (pos 100)) ≡ false))
judge_gone_example = judge_gone no_deployments noon (pos 100) known

cleanup_deleted-lookup_example :
    (lookup "Deployment/prod/web" (or_empty cleaned.0.states) ≡ (
      if removes no_deployments noon (pos 100) "Deployment/prod/web" (or_empty one_state.states)
      then none
      else lookup "Deployment/prod/web" (or_empty (normalize_document one_state).states)))
    × (cleaned.1.removed + cleaned.1.retained ≡ length (or_empty one_state.states))
unfolding cleanup_deleted validate_document validate_workload_state validate_hash
    validate_containers validate_utc_time validate_snapshot lookup ◌+ℤ◌ remove normalize_document
cleanup_deleted-lookup_example =
    cleanup_deleted-lookup one_state no_deployments noon (pos 100) cleaned.0 cleaned.1
      "Deployment/prod/web" refl

normalize_document_valid_example : normalize_document one_state ≡ one_state
unfolding cleanup_deleted validate_document validate_workload_state validate_hash
    validate_containers validate_utc_time validate_snapshot lookup ◌+ℤ◌ remove normalize_document
normalize_document_valid_example = normalize_document_valid one_state refl

cleanup_deleted_valid_example :
    (validate_document one_state ≡ ok tt) × (validate_document cleaned.0 ≡ ok tt)
unfolding cleanup_deleted validate_document validate_workload_state validate_hash
    validate_containers validate_utc_time validate_snapshot lookup ◌+ℤ◌ remove normalize_document
cleanup_deleted_valid_example =
    cleanup_deleted_valid one_state no_deployments noon (pos 100) cleaned.0 cleaned.1 refl
