-- ===== src/Controller/Deletion.antt =====
-- A transition deletes a workload only under a policy whose action for expired workloads is to delete.
use kube_workload_lm.Base.{String, true, false, List, Result, ok, err, ◌≡◌, ◌≢◌, sym, ◌∙◌, All}
use kube_workload_lm.Workload.{Workload, key}
use kube_workload_lm.Lifecycle.Decision.{Decision}
use kube_workload_lm.Lifecycle.Revision.{Hasher}
use kube_workload_lm.Schedule.Calendar.{Zones}
use kube_workload_lm.Policy.Types.{Matchers, Policy}
use kube_workload_lm.Controller.Effects.{Collaborators, Call, TransitionError, Machine}
use kube_workload_lm.Controller.Effects.Rules.{After}
use kube_workload_lm.Controller.Draft.{Prepared}
use kube_workload_lm.Controller.Prepare.{prepare}
use kube_workload_lm.Controller.Act.{act}
use kube_workload_lm.Controller.Transition.{reconcile, finish, conclude}
use kube_workload_lm.Controller.Walk.{Closed, IsDecided, Walks-prepare, Walks-act}
use kube_workload_lm.Controller.Walk.{is_deletion}
use kube_workload_lm.Lifecycle.Decision.Outcomes.{decide_deletes}

-- No call was a deletion.
abbrev pub DeletesNothing : List Call → Type 0
DeletesNothing = All (λ c. is_deletion c ≡ false)

spares : Closed DeletesNothing DeletesNothing
spares = record { stop = λ l h. h; good = λ c s d l h. (d, h); bad = λ c s d l h. (d, h) }

module _ (C : Collaborators) where
  conclude-spares :
      (decision : Decision) (r : Result (TransitionError C.Failure) (Unit {0}) × Machine C)
      → After (λ _. DeletesNothing) DeletesNothing r
      → DeletesNothing (conclude C decision r).1.calls
  unfolding conclude
  conclude-spares decision (ok u, s) h = h
  conclude-spares decision (err e, s) h = h

  finish-spares :
      (k : String) (r : Result (TransitionError C.Failure) Prepared × Machine C)
      → After
          (λ p. λ l. (¬ (p.decision.delete_workload ≡ true)) × DeletesNothing l)
          DeletesNothing
          r
      → DeletesNothing (finish C k r).1.calls
  unfolding finish
  finish-spares k (ok p, s) h =
      conclude-spares p.decision (act C k p s)
        ((Walks-act spares C k p λ del. absurd (h.0 del)).at s h.1)
  finish-spares k (err e, s) h = h

module _ (C : Collaborators) (H : Hasher) (Z : Zones) {M : Matchers} where
  decided-spares :
      (selected : Policy M)
      → selected.lifecycle.expired_action ≢ "delete"
      → (r : Result (TransitionError C.Failure) Prepared × Machine C)
      → After
          (λ p. λ l. IsDecided spares C H Z selected p.decision × DeletesNothing l)
          DeletesNothing
          r
      → After
          (λ p. λ l. (¬ (p.decision.delete_workload ≡ true)) × DeletesNothing l)
          DeletesNothing
          r
  decided-spares selected keeps (ok p, s) ((i, made, action), h) =
      (λ del. keeps (sym action ∙ ((decide_deletes i).0.0 (rw made at del)).1), h)
  decided-spares selected keeps (err e, s) h = h

  -- Under a policy whose action for expired workloads is not to delete, a transition that starts
  -- from a log without deletions ends with one, whatever its collaborators answer.
  pub reconcile_spares :
      (current : Workload) (selected : Policy M) (s : Machine C)
      → selected.lifecycle.expired_action ≢ "delete"
      → DeletesNothing s.calls
      → DeletesNothing (reconcile C H Z current selected s).1.calls
  unfolding reconcile
  reconcile_spares current selected s keeps h =
      finish-spares C (key current) (prepare C H Z current selected s) (
        decided-spares selected keeps (prepare C H Z current selected s)
          ((Walks-prepare spares C H Z selected current).at s h))
