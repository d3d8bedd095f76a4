-- ===== src/Runtime.antt =====
-- internal/runtime/runtime.go: how `Coordinator.Run` comes to its result. The goroutines of the server,
-- the election and the controller are what they report and when; what `select` took is an argument.
pub mod Results
use kube_workload_lm.Base.{
  Bool, true, false, ◌&&◌, ◌||◌, not, Option, none, some, is_nil, if◌then◌else◌,
}
use kube_workload_lm.Base.Int.{ℤ, pos, ltb_ℤ}

-- `F` is the type of the errors of the components.
pub data RuntimeError (F : Type 0) : Type 0 where
  leadership_lost election_stopped controller_stopped http_server_stopped shutdown_timeout :
      RuntimeError F
  controller_run leader_election http_server shutdown_server : F → RuntimeError F
  -- `errors.Join`
  joined : RuntimeError F → RuntimeError F → RuntimeError F

-- `errors.Is` for the three errors that the code asks for.
pub record ErrorTests (F : Type 0) : Type 0 where
  pub is_leadership_lost : F → Bool
  pub is_server_closed : F → Bool
  pub is_context_canceled : F → Bool

-- What the first `select` took; a nil error is `none`.
pub data Cause (F : Type 0) : Type 0 where
  context_ended leadership_signal : Cause F
  controller_result election_result server_result : Option F → Cause F

-- What the main goroutine reads besides: `ctx.Err() != nil`, and the flags that are shared.
pub record Flags : Type 0 where
  pub has_ended : Bool
  pub lost : Bool
  pub leader_started : Bool

-- Which results came before the deadline of the shutdown, and the one of `Shutdown`.
pub record Waits (F : Type 0) : Type 0 where
  pub election_in_time : Bool
  pub controller_in_time : Bool
  pub server_in_time : Bool
  -- none after the deadline
  pub shutdown_answer : Option (Option F)

abbrev pub default_shutdown_timeout : ℤ
default_shutdown_timeout = pos 10000000000

-- The timeout that `NewCoordinator` keeps.
unfoldable pub shutdown_timeout_of : ℤ → ℤ
shutdown_timeout_of timeout =
    if not (ltb_ℤ (pos 0) timeout) then default_shutdown_timeout else timeout

module _ {F : Type 0} (T : ErrorTests F) where
  abbrev pub or_stopped : (F → RuntimeError F) → RuntimeError F → Option F → RuntimeError F
  or_stopped failed stopped none = stopped
  or_stopped failed stopped (some f) = failed f

  abbrev pub tests_lost : Option F → Bool
  tests_lost none = false
  tests_lost (some f) = T.is_leadership_lost f

  abbrev pub server_failure : Option F → RuntimeError F
  server_failure none = http_server_stopped
  server_failure (some f) = if T.is_server_closed f then http_server_stopped else http_server f

  -- The first `select`: the result so far.
  unfoldable pub first_result : Flags → Cause F → Option (RuntimeError F)
  first_result flags context_ended = none
  first_result flags leadership_signal = some leadership_lost
  first_result flags (controller_result e) =
      if flags.has_ended
      then none
      else if flags.lost
      then some leadership_lost
      else some (or_stopped controller_run controller_stopped e)
  first_result flags (election_result e) =
      if flags.has_ended
      then none
      else if flags.lost || tests_lost e
      then some leadership_lost
      else some (or_stopped leader_election election_stopped e)
  first_result flags (server_result e) = if flags.has_ended then none else some (server_failure e)

  abbrev pub election_done : Cause F → Bool
  election_done (election_result e) = true
  election_done other = false

  abbrev pub controller_done : Cause F → Bool
  controller_done (controller_result e) = true
  controller_done other = false

  abbrev pub server_done : Cause F → Bool
  server_done (server_result e) = true
  server_done other = false

  -- `preferError`
  abbrev pub prefer_error : Option (RuntimeError F) → RuntimeError F → Option (RuntimeError F)
  prefer_error none shutdown = some shutdown
  prefer_error (some primary) shutdown = some (joined primary shutdown)

  abbrev pub finish_shutdown : Option (RuntimeError F) → Option (Option F) → Option (RuntimeError F)
  finish_shutdown result none = prefer_error result shutdown_timeout
  finish_shutdown result (some none) = result
  finish_shutdown result (some (some f)) =
      if T.is_context_canceled f then result else prefer_error result (shutdown_server f)

  -- The waits of the shutdown, in their order.
  unfoldable pub shut_down :
      Flags → Cause F → Waits F → Option (RuntimeError F) → Option (RuntimeError F)
  shut_down flags cause waits result =
      if not (election_done cause) && not waits.election_in_time
      then prefer_error result shutdown_timeout
      else if flags.leader_started && not (controller_done cause) && not waits.controller_in_time
      then prefer_error result shutdown_timeout
      else if not (server_done cause) && not waits.server_in_time
      then prefer_error result shutdown_timeout
      else finish_shutdown result waits.shutdown_answer

  -- `Coordinator.Run`; the flag `leader_started` is the one that the shutdown reads.
  unfoldable pub run_result : Flags → Cause F → Waits F → Option (RuntimeError F)
  run_result flags cause waits = shut_down flags cause waits (first_result flags cause)
