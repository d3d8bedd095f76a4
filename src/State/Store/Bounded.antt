-- ===== src/State/Store/Bounded.antt =====
-- How often the store of internal/state/configmap.go calls the API: at most once for each step of its
-- backoff, and exactly so often when it gives up.
use kube_workload_lm.Base.{ℕ, suc, ◌+◌, ◌≤◌, Bool, true, false, List, [], ◌∷◌, Result, ok, err, ◌≡◌}
use kube_workload_lm.Base.Int.{pos_part}
use kube_workload_lm.State.Codec.{Json}
use kube_workload_lm.State.Store.{
  ConfigMapApi, ConfigMapStateStore, StoreMachine, StoreError, conflict_retries_exhausted,
  load_failed, save_failed, ApiCall, got, get_refused, created, updated, clamp_backoff,
}
use kube_workload_lm.State.Store.Rules.{Holds}

module _ {Meta : Type 0} where
  -- Each attempt begins with one read.
  abbrev pub reads : List (ApiCall Meta) → ℕ
  reads [] = 0
  reads (got m ∷ older) = suc (reads older)
  reads (get_refused ∷ older) = suc (reads older)
  reads (created m b ∷ older) = reads older
  reads (updated m b ∷ older) = reads older

  abbrev pub writes : List (ApiCall Meta) → ℕ
  writes [] = 0
  writes (got m ∷ older) = writes older
  writes (get_refused ∷ older) = writes older
  writes (created m b ∷ older) = suc (writes older)
  writes (updated m b ∷ older) = suc (writes older)

abbrev pub is_exhausted : {F : Type 0} → StoreError F → Bool
is_exhausted (conflict_retries_exhausted e) = true
is_exhausted (load_failed e) = is_exhausted e
is_exhausted (save_failed e) = is_exhausted e
is_exhausted e = false

-- The number of attempts: the steps of the backoff, but at least one.
abbrev pub attempt_limit : {C : ConfigMapApi} → ConfigMapStateStore C → ℕ
attempt_limit {C} store = pos_part (clamp_backoff C store.backoff).steps

-- The total of reads that the attempts come to, and the most writes.
module _ (C : ConfigMapApi) (J : Json) (store : ConfigMapStateStore C) (total most : ℕ) where
  abbrev Left : ℕ → Holds C
  Left n s = (reads s.calls + n ≡ total) × (writes s.calls + n ≤ most)

  -- The attempt has read, and not written.
  abbrev Opened : ℕ → Holds C
  Opened n s = (reads s.calls + n ≡ total) × (writes s.calls + suc n ≤ most)

  abbrev Lasting : ℕ → StoreError C.Failure → Holds C
  Lasting n e s = Left n s × (is_exhausted e ≡ false)

  abbrev Within : Holds C
  Within s = (reads s.calls ≤ total) × (writes s.calls ≤ most)

  abbrev Finished : StoreError C.Failure → Holds C
  Finished e s = Within s × (is_exhausted e ≡ true → reads s.calls ≡ total)

abbrev pub exhausts : {F A : Type 0} → Result (StoreError F) A → Bool
exhausts (ok a) = false
exhausts (err e) = is_exhausted e

-- The calls that a run has added to the log are within the limit, and reach it if it gave up.
abbrev pub IsBounded :
    {C : ConfigMapApi} {A : Type 0}
    → ℕ
    → StoreMachine C
    → Result (StoreError C.Failure) A × StoreMachine C
    → Type 0
IsBounded limit s (r, s') =
    (reads s'.calls ≤ reads s.calls + limit)
    × (writes s'.calls ≤ writes s.calls + limit)
    × (exhausts r ≡ true → reads s'.calls ≡ reads s.calls + limit)
