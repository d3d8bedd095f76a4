-- ===== src/Controller/Durable.antt =====
-- Scale is written only while a durable snapshot of the workload exists: the newest document that the
-- store has loaded or saved holds one.
pub mod Steps
pub mod Whole
use kube_workload_lm.Base.{
  String, ◌==◌, eq_refl, Bool, true, false, ◌&&◌, ◌||◌, not, Option, none, some, List, [], ◌∷◌,
  Result, ok, err, ◌≡◌, refl, ◌∙◌, arith, is_set, if◌then◌else◌, Option-cases, inl, inr,
}
use kube_workload_lm.Base.Int.{ℤ}
use kube_workload_lm.Base.Time.{Time}
use kube_workload_lm.Base.Dict.{lookup, insert, lookup-insert}
use kube_workload_lm.Workload.{Workload, key}
use kube_workload_lm.Lifecycle.Decision.{
  Decision, decide, reason_scale_down_skipped, reason_scale_down_skipped_replica_override,
}
use kube_workload_lm.Lifecycle.Decision.Outcomes.{decide_has_snapshot}
use kube_workload_lm.Lifecycle.Revision.{Hasher, Revision}
use kube_workload_lm.Schedule.Calendar.{Zones}
use kube_workload_lm.Schedule.Window.{ScheduleError}
use kube_workload_lm.Policy.Types.{Matchers, Policy}
use kube_workload_lm.State.Types.{Document, ReplicaSnapshot, States, WorkloadState}
use kube_workload_lm.Controller.Effects.{
  Collaborators, Call, loaded, load_refused, saved, scale_read, scaled, deleted, TransitionError,
  Machine, Action, Operation, pure, raise, lift, update_scale, nil_map, mark_skipped, mark_override,
  persist_baseline, window_id_failed, schedule_failed, revision_failed, persist_snapshot,
  clear_snapshot, update_state, redeploy_failed,
}
use kube_workload_lm.Controller.Effects.Rules.{
  After, Triple, Triple-pure, Triple-raise, Triple-lift, Triple-bind, Triple-save_document,
  Triple-load_document, Triple-read_scale, Triple-update_scale, Triple-delete_workload,
  Triple-read_clock, Triple-admit, Triple-if, Triple-weaken, Triple-map_error,
}
use kube_workload_lm.Controller.Identity.{
  reconcile_identity, enter_cycle, record_entry, reconcile_window_cycle,
}
use kube_workload_lm.Controller.Draft.{
  Draft, Prepared, document_of, previous_state, put, mark, when, save, snapshot_count,
}
use kube_workload_lm.Controller.Prepare.{
  present, restore_snapshot, handle_redeploy, redeploy_step, accept_override, override_step,
  identity_draft, persist_identity, id_if, identify, conclude_window, settle, prepare, input_of,
}
use kube_workload_lm.Controller.Act.{
  delete_expired, take_snapshot, restore, refresh, apply_decision, act, with_snapshot, snapshot_of,
}
use kube_workload_lm.Controller.Transition.{Outcome, reconcile, finish, conclude}

abbrev state_has_snapshot : Option WorkloadState → Bool
state_has_snapshot none = false
state_has_snapshot (some s) = is_set s.replica_snapshot

abbrev states_have_snapshot : String → Option States → Bool
states_have_snapshot k none = false
states_have_snapshot k (some states) = state_has_snapshot (lookup k states)

-- The newest durable document holds a snapshot under the key.
abbrev pub has_durable_snapshot : String → List Call → Bool
has_durable_snapshot k [] = false
has_durable_snapshot k (loaded d ∷ older) = states_have_snapshot k d.states
has_durable_snapshot k (saved d true ∷ older) = states_have_snapshot k d.states
has_durable_snapshot k (saved d false ∷ older) = has_durable_snapshot k older
has_durable_snapshot k (load_refused ∷ older) = has_durable_snapshot k older
has_durable_snapshot k (scale_read b ∷ older) = has_durable_snapshot k older
has_durable_snapshot k (scaled w n b ∷ older) = has_durable_snapshot k older
has_durable_snapshot k (deleted w b ∷ older) = has_durable_snapshot k older

abbrev Allowed : Call → List Call → Type 0
Allowed (scaled w n b) older = has_durable_snapshot (key w) older ≡ true
Allowed other older = Unit

-- Each write of a scale came after a durable snapshot of its workload.
abbrev pub IsGuarded : List Call → Type 0
IsGuarded [] = Unit
IsGuarded (c ∷ older) = Allowed c older × IsGuarded older

-- A snapshot in the draft is durable.
abbrev Tracks : String → Draft → List Call → Type 0
Tracks k d l =
    IsGuarded l × (is_set d.current.replica_snapshot ≡ true → has_durable_snapshot k l ≡ true)

lookup_own : (k : String) (s : WorkloadState) (d : States) → lookup k (insert k s d) ≡ some s
lookup_own k s d = rw (lookup-insert, eq_refl)

-- The draft's document holds the current state.
abbrev Own : String → Draft → Type 0
Own k d = lookup k d.states ≡ some d.current

saved-Tracks :
    (k : String) (d : Draft) (l : List Call)
    → Own k d
    → IsGuarded l
    → Tracks k d (saved (document_of d) true ∷ l)
saved-Tracks k d l own g = ((tt, g), λ h. rw own h)

module _ (C : Collaborators) (k : String) where
  save-Tracks :
      {P : List Call → Type 0} (operation : Operation) (d : Draft)
      → Own k d
      → ((l : List Call) → P l → IsGuarded l)
      → Triple P (save C operation d) (λ _. Tracks k d) IsGuarded
  unfolding save
  save-Tracks operation d own h =
      Triple-save_document C _ _ (λ l p. saved-Tracks k d l own (h l p)) (λ l p. (tt, h l p))

  Known : ℤ × States → List Call → Type 0
  Known r l =
      IsGuarded l × (state_has_snapshot (lookup k r.1) ≡ true → has_durable_snapshot k l ≡ true)

  present-Known :
      (version : ℤ) (o : Option States)
      → Triple
          (λ l. IsGuarded l × (has_durable_snapshot k l ≡ states_have_snapshot k o))
          (present C version o)
          Known
          IsGuarded
  unfolding present Known
  present-Known version none = Triple-raise nil_map λ l h. h.0
  present-Known version (some states) = Triple-pure (version, states) λ l h. (h.0, λ e. h.1 ∙ e)

  persist_identity-Tracks :
      (d : Draft × Bool)
      → Own k d.0
      → Triple
          (Tracks k d.0)
          (persist_identity C d)
          (λ d. λ l. Own k d.0 × Tracks k d.0 l)
          IsGuarded
  unfolding persist_identity
  persist_identity-Tracks (d, true) own =
      Triple-bind _ _ (save-Tracks persist_baseline d own (λ l h. h.0))
        λ _. Triple-pure (d, true) λ l h. (own, h)
  persist_identity-Tracks (d, false) own =
      Triple-bind _ _ (Triple-pure tt λ l h. h) λ _. Triple-pure (d, false) λ l h. (own, h)

module _ {M : Matchers} (current : Workload) (selected : Policy M) (revision : Revision)
    (now : Time) where
  identity_draft-Own :
      (r : ℤ × States) → Own (key current) (identity_draft current selected revision now r).0
  unfolding identity_draft
  identity_draft-Own (version, states) = lookup_own (key current) _ states

  identity-snapshot :
      (previous : Option WorkloadState)
      → is_set
          (reconcile_identity
            (previous_state previous)
            current
            selected.name
            revision
            now).0.replica_snapshot
        ≡ true
      → state_has_snapshot previous ≡ true
  unfolding reconcile_identity
  identity-snapshot none h = ground arith
  identity-snapshot (some s) h = ground arith

  identity_draft-Tracks :
      (C : Collaborators) (r : ℤ × States) (l : List Call)
      → Known C (key current) r l
      → Tracks (key current) (identity_draft current selected revision now r).0 l
  unfolding identity_draft Known
  identity_draft-Tracks C (version, states) l (g, h) =
      (g, λ e. h (identity-snapshot (lookup (key current) states) e))

  identify-Tracks :
      (C : Collaborators)
      → Triple IsGuarded
          (identify C current selected revision now)
          (λ d. λ l. Own (key current) d.0 × Tracks (key current) d.0 l)
          IsGuarded
  unfolding identify
  identify-Tracks C =
      Triple-bind _ _
        (Triple-load_document C
          {Q = λ d l.
            IsGuarded l
            × (has_durable_snapshot (key current) l ≡ states_have_snapshot (key current) d.states)}
          (λ d l g. ((tt, g), refl)) (λ l g. (tt, g)))
        λ d. Triple-bind _ _ (present-Known C (key current) d.format_version d.states) λ r.
          Triple-weaken _ (λ l h. identity_draft-Tracks C r l h)
            (persist_identity-Tracks C (key current) _ (identity_draft-Own r))

-- What the gateway promises of `Read`: a copy of the workload, with its live replicas.
pub record ReadsCopy (C : Collaborators) : Type 0 where
  pub same_key :
      (current live : Workload) (w : C.World)
      → (C.read current w).0 ≡ ok live
      → key live ≡ key current

enter_cycle-snapshot :
    (s : WorkloadState) (id : String) (b : Bool) (hash : String)
    → (enter_cycle s id b hash).replica_snapshot ≡ s.replica_snapshot
unfolding reconcile_window_cycle record_entry
enter_cycle-snapshot s id b hash = ground arith
