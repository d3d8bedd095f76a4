-- ===== src/Controller/Effects.antt =====
-- The collaborators of the Reconciler of internal/controller/transition.go (the interfaces
-- StateStore, ScaleGateway, WorkloadDeleter, HPAEvaluator and Clock) over one unknown outside world,
-- and the calls that a transition makes of them. Each call is logged with its outcome, newest first;
-- the log is the model's own and steers nothing.
pub mod Rules
use kube_workload_lm.Base.{
  String, Bool, true, false, Option, none, some, List, ◌∷◌, Result, ok, err,
}
use kube_workload_lm.Base.Int.{ℤ}
use kube_workload_lm.Base.Time.{Time, utc}
use kube_workload_lm.Workload.{Workload}
use kube_workload_lm.Workload.Hpa.{HpaError, HpaEvaluation, rejection}
use kube_workload_lm.Lifecycle.Revision.{RevisionError}
use kube_workload_lm.Schedule.Window.{ScheduleError}
use kube_workload_lm.State.Types.{Document}

pub record Collaborators : Type 1 where
  pub World : Type 0
  pub Failure : Type 0
  pub evaluate : Workload → World → HpaEvaluation Failure × World
  pub now : World → Time × World
  pub load : World → Result Failure Document × World
  pub save : Document → World → Result Failure (Unit {0}) × World
  pub read : Workload → World → Result Failure Workload × World
  pub update : Workload → ℤ → World → Result Failure (Unit {0}) × World
  pub delete : Workload → World → Result Failure (Unit {0}) × World

-- A call that changes or reads something durable, with whether it succeeded.
pub data Call : Type 0 where
  loaded : Document → Call
  load_refused : Call
  saved : Document → Bool → Call
  scale_read : Bool → Call
  scaled : Workload → ℤ → Bool → Call
  deleted : Workload → Bool → Call

-- The operation that a failed save is reported under.
pub data Operation : Type 0 where
  persist_baseline mark_override persist_snapshot clear_snapshot update_state mark_skipped :
      Operation

pub data TransitionError (F : Type 0) : Type 0 where
  rejected : HpaError F → TransitionError F
  revision_failed : RevisionError → TransitionError F
  load_failed read_failed delete_failed clean_failed : F → TransitionError F
  save_failed : Operation → F → TransitionError F
  scale_failed : ℤ → String → F → TransitionError F
  schedule_failed window_id_failed : ScheduleError → TransitionError F
  redeploy_failed : TransitionError F → TransitionError F
  -- a write to a nil map, which panics
  nil_map : TransitionError F

module _ (C : Collaborators) where
  pub record Machine : Type 0 where
    pub world : C.World
    pub calls : List Call

  abbrev pub Action : Type 0 → Type 0
  Action A = Machine → Result (TransitionError C.Failure) A × Machine

module _ {C : Collaborators} {A : Type 0} where
  abbrev pub pure : A → Action C A
  pure a s = (ok a, s)

  abbrev pub raise : TransitionError C.Failure → Action C A
  raise e s = (err e, s)

  -- A computation that needs no collaborator.
  abbrev pub lift : {E : Type 0} → (E → TransitionError C.Failure) → Result E A → Action C A
  lift f (ok a) s = (ok a, s)
  lift f (err e) s = (err (f e), s)

  -- What a collaborator answered, logged.
  abbrev pub answered :
      (A → Call)
      → Call
      → (C.Failure → TransitionError C.Failure)
      → Result C.Failure A × C.World
      → List Call
      → Result (TransitionError C.Failure) A × Machine C
  answered good bad f (ok a, w) calls = (ok a, record { world = w; calls = good a ∷ calls })
  answered good bad f (err e, w) calls = (err (f e), record { world = w; calls = bad ∷ calls })

module _ {C : Collaborators} {A B : Type 0} where
  abbrev pub continue :
      Result (TransitionError C.Failure) A × Machine C
      → (A → Action C B)
      → Result (TransitionError C.Failure) B × Machine C
  continue (ok a, s) f = f a s
  continue (err e, s) f = (err e, s)

  infixl 5 ◌>>=◌ ◌>>◌
  unfoldable pub ◌>>=◌ : Action C A → (A → Action C B) → Action C B
  ◌>>=◌ m f s = continue (m s) f

  abbrev pub ◌>>◌ : Action C A → Action C B → Action C B
  m >> n = m >>= λ _. n

module _ {C : Collaborators} {A : Type 0} where
  abbrev pub relabel :
      (TransitionError C.Failure → TransitionError C.Failure)
      → Result (TransitionError C.Failure) A × Machine C
      → Result (TransitionError C.Failure) A × Machine C
  relabel f (ok a, s) = (ok a, s)
  relabel f (err e, s) = (err (f e), s)

  -- An error passed on inside another one.
  unfoldable pub map_error :
      (TransitionError C.Failure → TransitionError C.Failure) → Action C A → Action C A
  map_error f m s = relabel f (m s)

module _ (C : Collaborators) where
  unfoldable pub load_document : Action C Document
  load_document s = answered loaded load_refused load_failed (C.load s.world) s.calls

  unfoldable pub save_document :
      (C.Failure → TransitionError C.Failure) → Document → Action C (Unit {0})
  save_document f document s =
      answered (λ _. saved document true) (saved document false) f (C.save document s.world) s.calls

  unfoldable pub read_scale : Workload → Action C Workload
  read_scale current s =
      answered (λ _. scale_read true) (scale_read false) read_failed (C.read current s.world)
        s.calls

  -- `updateScale`
  unfoldable pub update_scale : Workload → ℤ → String → Action C (Unit {0})
  update_scale current replicas reason s =
      answered (λ _. scaled current replicas true) (scaled current replicas false)
        (scale_failed replicas reason) (C.update current replicas s.world) s.calls

  unfoldable pub delete_workload : Workload → Action C (Unit {0})
  delete_workload live s =
      answered (λ _. deleted live true) (deleted live false) delete_failed (C.delete live s.world)
        s.calls

  -- `r.clock.Now().UTC()`
  unfoldable pub read_clock : Action C Time
  read_clock s = let (t, w) = C.now s.world in (ok (utc t), record s { world = w })

  unfoldable pub refuse : Option (HpaError C.Failure) → Action C (Unit {0})
  refuse none = pure tt
  refuse (some e) = raise (rejected e)

  -- `r.hpa.Evaluate(ctx, current).Rejection()`
  unfoldable pub admit : Workload → Action C (Unit {0})
  unfolding refuse
  admit current s =
      let (evaluation, w) = C.evaluate current s.world in
      refuse (rejection evaluation) (record s { world = w })
