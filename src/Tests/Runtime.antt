-- ===== src/Tests/Runtime.antt =====
-- A shutdown after a signal: the election, the controller and the server end in time.
use kube_workload_lm.Base.{String, ◌==◌, true, false, some, refl}
use kube_workload_lm.Runtime.{
  ErrorTests, Flags, server_result, Waits, first_result, shut_down, run_result,
}
use kube_workload_lm.Runtime.Results.{IsEnded, HasStopped, run_result-none}

abbrev tests : ErrorTests String
tests = record {
  is_leadership_lost = λ f. f == "leader election leadership lost";
  is_server_closed = λ f. f == "http: Server closed";
  is_context_canceled = λ f. f == "context canceled";
}

abbrev leading : Flags
leading = record { has_ended = true; lost = false; leader_started = true }

abbrev in_time : Waits String
in_time = record {
  election_in_time = true;
  controller_in_time = true;
  server_in_time = false;
  shutdown_answer = some (some "context canceled");
}

run_result-none_example :
    IsEnded tests leading (server_result (some "http: Server closed"))
    × HasStopped tests leading (server_result (some "http: Server closed")) in_time
unfolding run_result shut_down first_result
run_result-none_example =
    run_result-none tests leading (server_result (some "http: Server closed")) in_time refl
