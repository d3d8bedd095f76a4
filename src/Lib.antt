-- ===== src/Lib.antt =====
-- The kube-workload-lifecycle-manager, a Kubernetes controller that scales workloads down in scheduled
-- windows and when a revision has expired, restores them, and deletes them where a policy says so.
--
-- The parts, and the files that model them:
-- - Workload and its children: internal/workload. `Workload`, `Container` and `Workload.Key` of types.go
--   (Workload), HPA admission of hpa.go (Workload/Hpa), the scale gateway of scale.go (Workload/Scale), the
--   deletion of deleter.go (Workload/Deleter), the listing and the events of gateway.go
--   (Workload/Gateway), the watch events of hpa.go (Workload/Hpa/Watch).
-- - Lifecycle: internal/lifecycle. `Decide` of decision.go (Lifecycle/Decision), `CalculateRevision` of
--   revision.go (Lifecycle/Revision).
-- - Schedule: internal/schedule. Weekdays and local times (Schedule/Calendar), `parseMinute` (Schedule/Clock),
--   `ValidateWindow`, `Window.matches` and `Match` (Schedule/Window), `WindowInstanceID` (Schedule/Instance).
-- - Policy: internal/policy. The compiled policies and `Target.matches` of types.go (Policy/Types), `Match`
--   of matcher.go (Policy/Match), the decoded document of raw.go (Policy/Raw), its validation of
--   validate.go (Policy/Fields for the fields, Policy/Compile for the whole), `rejectNulls` and `Decode` of
--   decode.go (Policy/Nulls, Policy/Decode), manager.go (Policy/Manager), watch.go (Policy/Watch).
-- - State: internal/state. types.go (State/Types), `ValidateDocument` and `normalizeDocument` of document.go
--   (State/Document), its encoding and decoding (State/Codec), `CleanupDeleted` of cleanup.go
--   (State/Cleanup), capacity.go (State/Capacity), the ConfigMap store of configmap.go: its types and
--   calls (State/Store), `retry` (State/Store/Retry), `Load` and `Save` (State/Store/Operations).
-- - Controller: internal/controller. Of orchestrator.go, the rounds and the loop of `Run`
--   (Controller/Orchestrator) and the supervisors of the watches (Controller/Supervisor). Of transition.go,
--   the collaborators of `Reconciler` and the calls of them (Controller/Effects), the computed parts
--   (Controller/Identity), the document in hand (Controller/Draft), `Reconcile` up to the decision
--   (Controller/Prepare), `applyDecision` and the deletion (Controller/Act), and the whole of `Reconcile`
--   (Controller/Transition). Both together, as cmd/controller/main.go makes them (Controller/Whole), and
--   with the store and the gateways (Controller/Cluster).
-- - Runtime: `Coordinator.Run` of internal/runtime/runtime.go, from the results of its goroutines to its own.
-- - Observability: `Readiness` and `Telemetry` of internal/observability/runtime.go, with the counters and
--   the gauges of metrics.go that they set, and what cmd/controller/main.go and `Coordinator.Run` tell the
--   readiness besides.
-- - Base: what the parts share, and Tests: a cluster in memory.
--
-- `Reconcile` asks the HPA detector for admission, computes the revision, loads the state document, brings
-- the workload's identity up to date, reads the live scale, finds the window, may mark the workload as exempt,
-- and has `Decide` decide; then it writes the scale and saves the document in an order that the decision
-- gives. It is an action over the world of its collaborators, a record of functions on an unknown type of
-- worlds, which may fail at any call; each call is logged with its outcome. A Go error is a value of a
-- sum type with the operation that it is reported under; a write to a nil map, which panics, is an error
-- of its own. The map of states, which Go shares by reference, is passed along with the current state.
--
-- The store is a step over an unknown world too (Base/Step), with its own log of the calls of the API. The
-- goroutines are functions of what their `select` statements took, turn by turn: the ones that pass watch
-- events on (Base/Stream, Policy/Watch), the supervisors, which wait for the start of a watch, an event or
-- the end of a pause, and `Run`, which takes their requests one at a time; the end of the context is a
-- turn, or an answer of the world. A mutex makes each method of the policy manager one step.
--
-- Strings are native texts, compared as Go compares them; replica counts and durations are integers, which
-- the code only compares and adds to times far inside the range of int64. Maps are association lists: a
-- range over one runs in the order of the list, where Go leaves the order open. Of encoding/json it is only
-- assumed that it reads back the same value under each key (State/Document/Same), in whatever order. Loops
-- are structural recursion over lists, texts and the number of attempts. Only `rejectNulls` runs on fuel,
-- since an alias may lead back to a node that it stands in; its theorem says which fuel is enough, and
-- without an answer the functions above it have not returned.
--
-- Parameters, for code that is not part of the repository: the typed clients of client-go (ScaleClient,
-- DeleteClient, and the answers of the listings), the time zone database (Zones), label selectors, regular
-- expressions and time.ParseDuration (Matchers), JSON with SHA-256 (Hasher), the ConfigMap client with the
-- context and the waiting (ConfigMapApi), encoding/json (Json), the YAML library (Yaml).
--
-- Not modelled: the memory that slices share (the copies that the policy manager hands out are copies of
-- values), the opening and closing of the watches of the API and the merging of two of them into one
-- channel, the goroutines of the leader election, the HTTP endpoints, the gauges of the capacity and the
-- log, and the wiring of the entry point.
pub mod Base
pub mod Workload
pub mod Lifecycle
pub mod Schedule
pub mod Policy
pub mod State
pub mod Controller
pub mod Runtime
pub mod Observability
pub mod Tests
