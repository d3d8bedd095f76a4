-- ===== src/State/Store/Retry.antt =====
-- `retry` of internal/state/configmap.go: the attempts of an operation, with the pauses between them.
use kube_workload_lm.Base.{ℕ, suc, zero, ◌-◌, Bool, true, false, Result, ok, err}
use kube_workload_lm.Base.Int.{ℤ, pos_part}
use kube_workload_lm.Base.Step.{fail, and_then}
use kube_workload_lm.State.Store.{
  ConfigMapApi, ConflictBackoff, StoreMachine, StoreStep, StoreError, conflict_retries_exhausted,
  is_retryable, check_context, sleep_context, next_delay, clamp_backoff,
}

-- The attempts after the first one; the clamped number of steps is positive.
unfoldable pub further_attempts : (C : ConfigMapApi) → ConflictBackoff C.Factor → ℕ
unfolding clamp_backoff
further_attempts C backoff = pos_part (clamp_backoff C backoff).steps - 1

module _ (C : ConfigMapApi) {A : Type 0} where
  abbrev pub retried :
      Bool → StoreError C.Failure → (StoreError C.Failure → StoreStep C A) → StoreStep C A
  retried true e again s = again e s
  retried false e again s = (err e, s)

  -- What follows an attempt: a success or a lasting error ends the loop.
  abbrev pub after_attempt :
      Result (StoreError C.Failure) A × StoreMachine C
      → (StoreError C.Failure → StoreStep C A)
      → Result (StoreError C.Failure) A × StoreMachine C
  after_attempt (ok a, s) again = (ok a, s)
  after_attempt (err e, s) again = retried (is_retryable C e) e again s

  abbrev pub give_up : StoreError C.Failure → StoreStep C A
  give_up e = fail (conflict_retries_exhausted e)

  -- One attempt, and at most so many after it.
  unfoldable pub retry_from : ℕ → ℤ → ConflictBackoff C.Factor → StoreStep C A → StoreStep C A
  retry_from zero delay backoff operation =
      and_then (check_context C) λ _. λ s. after_attempt (operation s) give_up
  retry_from (suc n) delay backoff operation =
      let rest = retry_from n (next_delay C backoff delay) backoff operation in
      and_then (check_context C)
        λ _. λ s. after_attempt (operation s) λ e. and_then (sleep_context C delay) λ _. rest

  unfoldable pub retry : ConflictBackoff C.Factor → StoreStep C A → StoreStep C A
  retry backoff operation =
      let clamped = clamp_backoff C backoff in
      retry_from (further_attempts C backoff) clamped.initial_delay clamped operation
