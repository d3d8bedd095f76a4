-- ===== src/Runtime/Results.antt =====
-- What the result of `Coordinator.Run` of internal/runtime/runtime.go says.
use kube_workload_lm.Base.{
  Bool, true, false, ◌&&◌, ◌||◌, not, Option, none, some, ◌≡◌, ◌⊎◌, inl, inr, refl, subst, arith,
  Bool-cases, if◌then◌else◌,
}
use kube_workload_lm.Runtime.{
  RuntimeError, ErrorTests, Cause, context_ended, leadership_signal, controller_result,
  election_result, server_result, Flags, Waits, first_result, election_done, controller_done,
  server_done, prefer_error, finish_shutdown, shut_down, run_result, shutdown_timeout,
  shutdown_server,
}

done_or_in_time : (a b : Bool) → (not a && not b) ≡ false → (a || b) ≡ true
done_or_in_time true b h = refl
done_or_in_time false true h = refl
done_or_in_time false false h = grind arith

idle_or_done : (s a b : Bool) → (s && not a && not b) ≡ false → (not s || a || b) ≡ true
idle_or_done false a b h = refl
idle_or_done true a b h = done_or_in_time a b h

module _ {F : Type 0} (T : ErrorTests F) where
  -- The server has shut down, but for the end of its context.
  abbrev pub IsShut : Option (Option F) → Type 0
  IsShut none = true ≡ false
  IsShut (some none) = Unit
  IsShut (some (some f)) = T.is_context_canceled f ≡ true

  -- Each component that had started has reported its end.
  abbrev pub HasStopped : Flags → Cause F → Waits F → Type 0
  HasStopped flags cause waits =
      ((election_done T cause || waits.election_in_time) ≡ true)
      × ((not flags.leader_started || controller_done T cause || waits.controller_in_time) ≡ true)
      × ((server_done T cause || waits.server_in_time) ≡ true)
      × IsShut waits.shutdown_answer

  prefer_error-none :
      (result : Option (RuntimeError F)) (e : RuntimeError F)
      → prefer_error T result e ≡ none
      → true ≡ false
  prefer_error-none none e h = grind arith
  prefer_error-none (some p) e h = grind arith

  absurd_of : {A : Type 0} → true ≡ false → A
  absurd_of h = absurd (grind arith)

  finish_shutdown-none :
      (result : Option (RuntimeError F)) (answer : Option (Option F))
      → finish_shutdown T result answer ≡ none
      → (result ≡ none) × IsShut answer
  finish_shutdown-none result none h = absurd_of (prefer_error-none result shutdown_timeout h)
  finish_shutdown-none result (some none) h = (h, tt)
  finish_shutdown-none result (some (some f)) h = elim (Bool-cases (T.is_context_canceled f)) [
    | inl canceled ↦ (
      subst (λ b. (if b then result else prefer_error T result (shutdown_server f)) ≡ none) canceled
          h,
      canceled,
    )
    | inr failed ↦ absurd_of (
        prefer_error-none result (shutdown_server f) (
          subst (λ b. (if b then result else prefer_error T result (shutdown_server f)) ≡ none)
            failed h))
  ]

  guard_none :
      {A : Type 0} (b : Bool) (x y : Option A)
      → (x ≡ none → true ≡ false)
      → (if b then x else y) ≡ none
      → (b ≡ false) × (y ≡ none)
  guard_none true x y never h = grind arith
  guard_none false x y never h = (refl, h)

  -- Why the first `select` may leave no error.
  abbrev pub IsEnded : Flags → Cause F → Type 0
  IsEnded flags cause = (cause ≡ context_ended) ⊎ (flags.has_ended ≡ true)

  first_result-none :
      (flags : Flags) (cause : Cause F) → first_result T flags cause ≡ none → IsEnded flags cause
  unfolding first_result
  first_result-none flags context_ended h = inl refl
  first_result-none flags leadership_signal h = grind arith
  first_result-none flags (controller_result e) h = inr (ground arith)
  first_result-none flags (election_result e) h = inr (ground arith)
  first_result-none flags (server_result e) h = inr (ground arith)

  -- `Run` reports no error only after the end of its context, and only if the election, the
  -- controller, where the shutdown finds it started, and the server have all ended in time, and the
  -- shutdown of the server has not failed.
  pub run_result-none :
      (flags : Flags) (cause : Cause F) (waits : Waits F)
      → run_result T flags cause waits ≡ none
      → IsEnded flags cause × HasStopped flags cause waits
  unfolding run_result shut_down
  run_result-none flags cause waits h =
      let result = first_result T flags cause in
      let late = prefer_error-none result shutdown_timeout in
      let (election, h) =
        guard_none (not (election_done T cause) && not waits.election_in_time) _ _ late h in
      let (runner, h) =
        guard_none
          (flags.leader_started && not (controller_done T cause) && not waits.controller_in_time) _
          _ late h in
      let (server, h) =
        guard_none (not (server_done T cause) && not waits.server_in_time) _ _ late h in
      let (clean, shut) = finish_shutdown-none result waits.shutdown_answer h in
      (
        first_result-none flags cause clean,
        (
          done_or_in_time (election_done T cause) waits.election_in_time election,
          idle_or_done flags.leader_started (controller_done T cause) waits.controller_in_time
              runner,
          done_or_in_time (server_done T cause) waits.server_in_time server,
          shut,
        ),
      )
