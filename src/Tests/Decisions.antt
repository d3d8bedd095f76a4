-- ===== src/Tests/Decisions.antt =====
-- The decision of a workload in a window, and the windows, at concrete inputs.
use kube_workload_lm.Base.{
  String, ok, true, false, none, [], ◌∷◌, ◌≡◌, ◌↔◌, ◌&&◌, ◌||◌, refl, arith,
}
use kube_workload_lm.Base.Int.{pos, ◌+ℤ◌}
use kube_workload_lm.Lifecycle.Decision.{DecisionInput, decide, is_expired}
use kube_workload_lm.Lifecycle.Decision.Outcomes.{
  decide_deletes, decide_settles, decide_restores, carried_out, after_window,
}
use kube_workload_lm.Schedule.Calendar.{from_weekday}
use kube_workload_lm.Schedule.Clock.{parse_minute}
use kube_workload_lm.Base.{Bool}
use kube_workload_lm.Schedule.Window.{matches, validate_window}
use kube_workload_lm.Schedule.Window.Interval.{matches_iff}
use kube_workload_lm.Schedule.Window.Covers.{Covers}
use kube_workload_lm.Schedule.Window.{match_windows}
use kube_workload_lm.Schedule.Instance.{window_instance_id}
use kube_workload_lm.Schedule.Instance.Matched.{match_windows_has_id}
use kube_workload_lm.Tests.Cluster.{noon, night, evening, one_zone, sunday_night}

abbrev in_window : DecisionInput
in_window = record {
  now = noon;
  first_seen_at = noon;
  max_age = pos 3600;
  current_replicas = pos 3;
  snapshot_replicas = none;
  scheduled_down = true;
  scheduled_window_name = "night";
  scheduled_target = pos 1;
  expired_target = pos 0;
  scale_down_skipped = false;
  scale_down_skip_reason = "";
  expired_action = "scale";
}

decide_deletes_example :
    (((decide in_window).delete_workload ≡ true)
      ↔ ((is_expired in_window ≡ true) × (in_window.expired_action ≡ "delete")))
    × (((decide in_window).delete_workload
          && ((decide in_window).needs_snapshot
              || (decide in_window).should_scale
              || (decide in_window).clear_snapshot_after_scale))
        ≡ false)
decide_deletes_example = decide_deletes in_window

decide_settles_example :
    let next = decide (carried_out in_window) in
    (next.should_scale ≡ false)
    × (next.needs_snapshot ≡ false)
    × (next.desired_replicas ≡ (decide in_window).desired_replicas)
unfolding decide ◌+ℤ◌
decide_settles_example = decide_settles in_window refl

decide_restores_example :
    ((decide (after_window in_window noon)).desired_replicas ≡ pos 3)
    × ((decide (after_window in_window noon)).clear_snapshot_after_scale ≡ true)
unfolding ◌+ℤ◌
decide_restores_example = decide_restores in_window noon refl refl refl

match_windows_has_id_example :
    (id : String) × (window_instance_id one_zone noon "UTC" "night" (sunday_night ∷ []) ≡ ok id)
unfolding match_windows parse_minute from_weekday
match_windows_has_id_example =
    match_windows_has_id one_zone noon "UTC" "night" (sunday_night ∷ []) refl

matches_iff_example :
    ((matches sunday_night night evening ≡ ok true) ↔ Covers ("SUN" ∷ []) night evening 1320 360)
    × ((b : Bool) × (matches sunday_night night evening ≡ ok b))
unfolding validate_window parse_minute
matches_iff_example =
    matches_iff sunday_night night evening 1320 360 refl refl refl refl (omega arith)
