-- ===== src/Schedule/Instance.antt =====
-- internal/schedule/instance.go: the identifier of one cycle of a window, its name with the date on
-- which the cycle started.
pub mod Matched
use kube_workload_lm.Base.{
  ℕ, String, ◌<>◌, ◌==◌, ◌&&◌, Option, none, some, List, [], ◌∷◌, Result, ok, err, ◌>>=◌, wrap, leb,
  ltb, if◌then◌else◌,
}
use kube_workload_lm.Base.Time.{Time}
use kube_workload_lm.Schedule.Calendar.{Civil, Zones}
use kube_workload_lm.Schedule.Clock.{parse_minute}
use kube_workload_lm.Schedule.Window.{
  Window, ScheduleError, unknown_time_zone, bad_window, window_not_found, invalid_start,
  invalid_end, minute_of_day,
}

unfoldable pub find_window : String → List Window → Option Window
find_window name [] = none
find_window name (w ∷ rest) = if w.name == name then some w else find_window name rest

-- A window that crosses midnight started yesterday if its end has not yet come.
unfoldable pub start_of_times : Civil → Civil → ℕ → ℕ → Civil
start_of_times local yesterday start end =
    if leb end start && ltb (minute_of_day local) end then yesterday else local

unfoldable pub start_of_cycle : Window → Civil → Civil → Result ScheduleError Civil
unfolding start_of_times
start_of_cycle window local yesterday =
    if window.all_day
    then ok local
    else wrap (λ e. bad_window window.name (invalid_start e)) (parse_minute window.start)
      >>= λ start.
          wrap (λ e. bad_window window.name (invalid_end e)) (parse_minute window.end) >>= λ end.
          ok (start_of_times local yesterday start end)

-- `fmt.Sprintf("%s:%s", windowName, startDate)`
abbrev pub format_id : String → Civil → String
format_id name start = name <> (":" <> start.date)

module _ (Z : Zones) where
  unfoldable pub id_of : Option Window → Z.Location → String → Time → Result ScheduleError String
  unfolding start_of_cycle
  id_of none location name now = err (window_not_found name)
  id_of (some window) location name now =
      start_of_cycle window (Z.civil location now) (Z.day_before location now) >>= λ start.
      ok (format_id name start)

  -- `WindowInstanceID`
  unfoldable pub window_instance_id :
      Time → String → String → List Window → Result ScheduleError String
  unfolding id_of find_window
  window_instance_id now zone name windows = elim (Z.load zone) [
    | none ↦ err (unknown_time_zone zone)
    | some location ↦ id_of (find_window name windows) location name now
  ]
