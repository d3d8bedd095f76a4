-- ===== src/State/Store/Attempts.antt =====
-- The loop of `retry` in internal/state/configmap.go: one rule for its attempts, by an invariant that
-- knows how many of them are left.
use kube_workload_lm.Base.{ℕ, suc, zero, Bool, true, false, Result, ok, err, ◌≡◌, refl}
use kube_workload_lm.Base.Int.{ℤ}
use kube_workload_lm.Base.Step.{Post, Hoare, Hoare-and_then, Hoare-fail}
use kube_workload_lm.State.Store.{
  ConfigMapApi, ConflictBackoff, StoreMachine, StoreStep, StoreError, conflict_retries_exhausted,
  is_retryable, check_context, sleep_context, next_delay,
}
use kube_workload_lm.State.Store.Retry.{
  retried, after_attempt, give_up, retry_from, retry, further_attempts,
}
use kube_workload_lm.State.Store.Rules.{Holds}

module _ (C : ConfigMapApi) where
  -- What a failed attempt establishes: `R` at the end of the loop, or `K` before the rest of it.
  abbrev pub Ended : (StoreError C.Failure → Holds C) → Holds C → StoreError C.Failure → Holds C
  Ended R K e s = (is_retryable C e ≡ false → R e s) × (is_retryable C e ≡ true → K s)

module _ (C : ConfigMapApi) {A : Type 0} {Q : A → Holds C}
    {R : StoreError C.Failure → Holds C} where
  retried-Post :
      {K : Holds C} (b : Bool) (e : StoreError C.Failure)
      (again : StoreError C.Failure → StoreStep C A) (s : StoreMachine C)
      → (b ≡ false → R e s)
      → (b ≡ true → K s)
      → (b ≡ true → Hoare K (again e) Q R)
      → Post Q R (retried C b e again s)
  retried-Post true e again s hr hk h = (h refl).at s (hk refl)
  retried-Post false e again s hr hk h = hr refl

  after_attempt-Post :
      {K : Holds C} (r : Result (StoreError C.Failure) A × StoreMachine C)
      (again : StoreError C.Failure → StoreStep C A)
      → Post Q (Ended C R K) r
      → ((e : StoreError C.Failure) → is_retryable C e ≡ true → Hoare K (again e) Q R)
      → Post Q R (after_attempt C r again)
  after_attempt-Post (ok a, s) again h k = h
  after_attempt-Post (err e, s) again h k = retried-Post (is_retryable C e) e again s h.0 h.1 (k e)

  attempt-Hoare :
      {P K : Holds C} (operation : StoreStep C A) (again : StoreError C.Failure → StoreStep C A)
      → Hoare P operation Q (Ended C R K)
      → ((e : StoreError C.Failure) → is_retryable C e ≡ true → Hoare K (again e) Q R)
      → Hoare P (λ s. after_attempt C (operation s) again) Q R
  attempt-Hoare operation again h k = record {
    at = λ s p. after_attempt-Post (operation s) again (h.at s p) k;
  }

  -- The invariant holds for the number of attempts that are left.
  module _ (I : ℕ → Holds C) (operation : StoreStep C A)
      (check : (n : ℕ) → Hoare (I n) (check_context C) (λ _. I n) R)
      (sleep : (n : ℕ) (delay : ℤ) → Hoare (I n) (sleep_context C delay) (λ _. I n) R)
      (attempt : (n : ℕ) → Hoare (I (suc n)) operation Q (Ended C R (I n)))
      (exhausted : (e : StoreError C.Failure) (s : StoreMachine C)
        → is_retryable C e ≡ true
        → I zero s
        → R (conflict_retries_exhausted e) s) where
    Hoare-retry_from :
        (n : ℕ) (delay : ℤ) (backoff : ConflictBackoff C.Factor)
        → Hoare (I (suc n)) (retry_from C n delay backoff operation) Q R
    unfolding retry_from
    Hoare-retry_from zero delay backoff = Hoare-and_then _ _ (check 1) λ _.
        attempt-Hoare operation (give_up C) (attempt zero) λ e h. Hoare-fail _ λ s. exhausted e s h
    Hoare-retry_from (suc n) delay backoff = Hoare-and_then _ _ (check (suc (suc n))) λ _.
        attempt-Hoare operation _ (attempt (suc n)) λ e h.
          Hoare-and_then _ _ (sleep (suc n) delay)
            λ _. Hoare-retry_from n (next_delay C backoff delay) backoff

    pub Hoare-retry :
        (backoff : ConflictBackoff C.Factor)
        → Hoare (I (suc (further_attempts C backoff))) (retry C backoff operation) Q R
    unfolding retry
    Hoare-retry backoff = Hoare-retry_from (further_attempts C backoff) _ _
