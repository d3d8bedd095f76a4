-- ===== src/Controller/Failures.antt =====
-- A transition makes no further call once one has failed, and reports the failure.
use kube_workload_lm.Base.{
  String, true, List, [], ◌∷◌, Result, ok, err, ◌≡◌, refl, All, is_set, ◌⊎◌, inl, inr,
}
use kube_workload_lm.Workload.{Workload, key}
use kube_workload_lm.Lifecycle.Decision.{Decision}
use kube_workload_lm.Lifecycle.Revision.{Hasher}
use kube_workload_lm.Schedule.Calendar.{Zones}
use kube_workload_lm.Policy.Types.{Matchers, Policy}
use kube_workload_lm.Controller.Effects.{Collaborators, Call, TransitionError, Machine}
use kube_workload_lm.Controller.Effects.Rules.{
  After, Triple-bind, Triple-save_document, Triple-delete_workload,
}
use kube_workload_lm.Controller.Draft.{Draft, Prepared}
use kube_workload_lm.Controller.Prepare.{prepare}
use kube_workload_lm.Controller.Act.{delete_expired, act}
use kube_workload_lm.Controller.Transition.{Outcome, reconcile, finish, conclude}
use kube_workload_lm.Controller.Walk.{succeeded, Closed, Walks, IsDecided, Walks-prepare, Walks-act}

-- Every call has succeeded.
abbrev pub IsClean : List Call → Type 0
IsClean = All (λ c. succeeded c ≡ true)

-- Every call but the last one, which comes first in the log, has succeeded.
abbrev pub IsStopped : List Call → Type 0
IsStopped [] = Unit
IsStopped (c ∷ older) = IsClean older

IsClean-IsStopped : (l : List Call) → IsClean l → IsStopped l
IsClean-IsStopped [] h = tt
IsClean-IsStopped (c ∷ l) h = h.1

stops : Closed IsClean IsStopped
stops = record { stop = IsClean-IsStopped; good = λ c s d l h. (s, h); bad = λ c s d l h. h }

module _ (C : Collaborators) where
  delete_expired-stops :
      (k : String) (live : Workload) (d : Draft) → Walks stops C (delete_expired C k live d)
  unfolding delete_expired
  delete_expired-stops k live d =
      Triple-bind _ _ (Triple-delete_workload C live (λ l h. (refl, h)) (λ l h. h))
        λ _. Triple-save_document C _ _ (λ l h. (refl, h)) (λ l h. h)

  -- What the result says of the log.
  abbrev Reports : Outcome C × Machine C → Type 0
  Reports (outcome, s) = IsStopped s.calls × (IsClean s.calls ⊎ (is_set outcome.1 ≡ true))

  conclude-Reports :
      (decision : Decision) (r : Result (TransitionError C.Failure) (Unit {0}) × Machine C)
      → After (λ _. IsClean) IsStopped r
      → Reports (conclude C decision r)
  unfolding conclude
  conclude-Reports decision (ok u, s) h = (IsClean-IsStopped s.calls h, inl h)
  conclude-Reports decision (err e, s) h = (h, inr refl)

  finish-Reports :
      (k : String) (X : Prepared → Type 0)
      (r : Result (TransitionError C.Failure) Prepared × Machine C)
      → After (λ p. λ l. X p × IsClean l) IsStopped r
      → Reports (finish C k r)
  unfolding finish
  finish-Reports k X (ok p, s) h =
      conclude-Reports p.decision (act C k p s)
        ((Walks-act stops C k p λ _. delete_expired-stops k p.live p.draft).at s h.1)
  finish-Reports k X (err e, s) h = (h, inr refl)

module _ (C : Collaborators) (H : Hasher) (Z : Zones) {M : Matchers} where
  -- From a log in which every call has succeeded, a transition comes to a log in which at most
  -- the last call has failed: after a failed call of the store, the scale gateway or the deleter
  -- it makes no other; it reports no error only if all calls have succeeded.
  pub reconcile-IsStopped :
      (current : Workload) (selected : Policy M) (s : Machine C)
      → IsClean s.calls
      → let (outcome, s') = reconcile C H Z current selected s in
        IsStopped s'.calls × (IsClean s'.calls ⊎ (is_set outcome.1 ≡ true))
  unfolding reconcile
  reconcile-IsStopped current selected s h =
      finish-Reports C (key current) (λ p. IsDecided stops C H Z selected p.decision)
        (prepare C H Z current selected s) ((Walks-prepare stops C H Z selected current).at s h)
