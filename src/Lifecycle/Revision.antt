-- ===== src/Lifecycle/Revision.antt =====
-- internal/lifecycle/revision.go: the canonical revision of a workload's containers. JSON and
-- SHA-256 are parameters: `Hasher` is hashJSON at the two types that the code hashes.

use kube_workload_lm.Base.{
  ℕ, String, ◌==◌, ◌||◌, Bool, true, false, List, [], ◌∷◌, map, Option, none, some, Result, ok, err,
  ◌>>=◌, ◌>>◌, fail_if, is_empty, is_set, if◌then◌else◌, sort_strings,
}
use kube_workload_lm.Base.Dict.{Dict, lookup, insert}
use kube_workload_lm.Workload.{Container}

abbrev pub source_container_images : String
source_container_images = "ContainerImages"

-- `Containers` is nil when it is omitted, which differs from an empty slice.
pub record TrackingSpec : Type 0 where
  pub source : String
  pub containers : Option (List String)

pub record Revision : Type 0 where
  pub tracking_spec_hash : String
  pub revision_hash : String
  pub containers : List Container

pub record CanonicalTracking : Type 0 where
  pub version : ℕ
  pub source : String
  pub mode : String
  pub containers : List String

pub data RevisionError : Type 0 where
  unsupported_source : String → RevisionError
  empty_container : RevisionError
  duplicate_container : String → RevisionError
  no_containers : RevisionError
  empty_tracking : RevisionError
  duplicate_tracked : String → RevisionError
  untracked : String → RevisionError
  hash_failed : RevisionError

pub record Hasher : Type 0 where
  pub hash_tracking : CanonicalTracking → Result RevisionError String
  pub hash_containers : List Container → Result RevisionError String

pub record Selected : Type 0 where
  pub containers : List Container
  pub names : List String
  pub mode : String

-- The first loop of `selectContainers`: the map of the workload's containers by name.
unfoldable pub index_containers :
    List Container → Dict Container → Result RevisionError (Dict Container)
unfolding lookup insert
index_containers [] available = ok available
index_containers (c ∷ rest) available =
    if c.name == "" || c.image == ""
    then err empty_container
    else if is_set (lookup c.name available)
    then err (duplicate_container c.name)
    else index_containers rest (insert c.name c available)

abbrev keys : Dict Container → List String
keys = map (λ (k, _). k)

-- `names[index-1] == name`, for the name before, if there is one.
abbrev pub repeats : Option String → String → Bool
repeats none name = false
repeats (some before) name = before == name

-- The last loop: the containers of the sorted names.
unfoldable pub pick :
    Dict Container → Option String → List String → Result RevisionError (List Container)
unfolding lookup
pick available before [] = ok []
pick available before (name ∷ rest) =
    let later = pick available (some name) rest in
    if repeats before name then err (duplicate_tracked name) else elim (lookup name available) [
      | none ↦ err (untracked name)
      | some c ↦ later >>= λ cs. ok (c ∷ cs)
    ]

-- The names to track, and the mode: all of the workload's containers, or those that are named.
abbrev pub tracked_names : Dict Container → Option (List String) → List String
tracked_names available none = sort_strings (keys available)
tracked_names available (some names) = sort_strings names

abbrev pub tracked_mode : Option (List String) → String
tracked_mode none = "AllContainers"
tracked_mode (some names) = "NamedContainers"

abbrev pub named_nothing : Option (List String) → Bool
named_nothing none = false
named_nothing (some names) = is_empty names

unfoldable pub select_containers :
    List Container → Option (List String) → Result RevisionError Selected
unfolding index_containers pick sort_strings
select_containers containers tracked = do
  available ← index_containers containers []
  fail_if (is_empty available) no_containers
  fail_if (named_nothing tracked) empty_tracking
  let names = tracked_names available tracked
  selected ← pick available none names
  ok (record { containers = selected; names = names; mode = tracked_mode tracked })

abbrev effective_source : TrackingSpec → String
effective_source spec = if spec.source == "" then source_container_images else spec.source

abbrev is_foreign : String → Bool
is_foreign source = if source == source_container_images then false else true

module _ (H : Hasher) where
  unfoldable pub calculate_revision : List Container → TrackingSpec → Result RevisionError Revision
  unfolding select_containers
  calculate_revision containers spec = do
    let source = effective_source spec
    fail_if (is_foreign source) (unsupported_source source)
    selected ← select_containers containers spec.containers
    tracking_hash ←
        H.hash_tracking (record {
          version = 1;
          source = source;
          mode = selected.mode;
          containers = selected.names;
        })
    revision_hash ← H.hash_containers selected.containers
    ok (record {
      tracking_spec_hash = tracking_hash;
      revision_hash = revision_hash;
      containers = selected.containers;
    })
