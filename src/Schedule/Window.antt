-- ===== src/Schedule/Window.antt =====
-- internal/schedule/validate.go and window.go: the windows, their validation, and the test whether
-- an instant lies in one.
pub mod Covers
pub mod Interval
use kube_workload_lm.Base.{
  ℕ, ◌+◌, ◌*◌, String, ◌==◌, Bool, ◌&&◌, ◌||◌, Option, none, some, List, [], ◌∷◌, any, is_empty,
  Result, ok, err, ◌>>=◌, ◌>>◌, fail_if, wrap, leb, ltb, ◌=?◌, if◌then◌else◌, sort_strings,
}
use kube_workload_lm.Base.Time.{Time}
use kube_workload_lm.Schedule.Calendar.{Day, Civil, Zones, from_weekday}
use kube_workload_lm.Schedule.Clock.{ClockError, parse_minute}

pub record Window : Type 0 where
  pub name : String
  pub start_days : List Day
  pub start : String
  pub end : String
  pub all_day : Bool

pub data WindowError : Type 0 where
  empty_name no_start_days all_day_with_times equal_times : WindowError
  invalid_day duplicate_day : Day → WindowError
  invalid_start invalid_end : ClockError → WindowError

abbrev pub days_of_week : List Day
days_of_week = "MON" ∷ "TUE" ∷ "WED" ∷ "THU" ∷ "FRI" ∷ "SAT" ∷ "SUN" ∷ []

-- `containsDay`, and the tests of the sets that the code keeps of what it has seen.
abbrev pub contains : List String → String → Bool
contains days target = any (λ day. day == target) days

unfoldable pub valid_day : Day → Bool
valid_day day = contains days_of_week day

unfoldable pub check_days : List Day → List Day → Result WindowError (Unit {0})
unfolding valid_day
check_days [] seen = ok tt
check_days (day ∷ rest) seen =
    if valid_day day
    then if contains seen day then err (duplicate_day day) else check_days rest (day ∷ seen)
    else err (invalid_day day)

-- The two minutes of a window that has times, which differ.
unfoldable pub parse_times : Window → Result WindowError (ℕ × ℕ)
parse_times window = do
  start ← wrap invalid_start (parse_minute window.start)
  end ← wrap invalid_end (parse_minute window.end)
  fail_if (start =? end) equal_times
  ok (start, end)

abbrev pub ignore : Result WindowError (ℕ × ℕ) → Result WindowError (Unit {0})
ignore r = r >>= λ _. ok tt

abbrev pub check_all_day : Window → Result WindowError (Unit {0})
check_all_day window =
    if window.start == "" && window.end == "" then ok tt else err all_day_with_times

-- `ValidateWindow`
unfoldable pub validate_window : Window → Result WindowError (Unit {0})
unfolding check_days parse_times
validate_window window = do
  fail_if (window.name == "") empty_name
  fail_if (is_empty window.start_days) no_start_days
  check_days window.start_days []
  if window.all_day then check_all_day window else ignore (parse_times window)

abbrev pub minute_of_day : Civil → ℕ
minute_of_day local = local.hour * 60 + local.minute

-- The test of a window with times. `yesterday` is the local time a day earlier.
unfoldable pub in_times : List Day → Civil → Civil → ℕ × ℕ → Bool
in_times days local yesterday (start, end) =
    let minute = minute_of_day local in
    let today = from_weekday local.weekday in
    if ltb start end
    then contains days today && leb start minute && ltb minute end
    else contains days today && leb start minute
      || contains days (from_weekday yesterday.weekday) && ltb minute end

-- `Window.matches` behind its validation.
unfoldable pub matches_valid : Window → Civil → Civil → Result WindowError Bool
unfolding in_times
matches_valid window local yesterday =
    if window.all_day
    then ok (contains window.start_days (from_weekday local.weekday))
    else parse_times window >>= λ times. ok (in_times window.start_days local yesterday times)

unfoldable pub matches : Window → Civil → Civil → Result WindowError Bool
unfolding validate_window matches_valid
matches window local yesterday = validate_window window >> matches_valid window local yesterday

pub data ScheduleError : Type 0 where
  unknown_time_zone : String → ScheduleError
  bad_window : String → WindowError → ScheduleError
  window_not_found : String → ScheduleError

-- The loop of `Match`: the names of the windows that match.
unfoldable pub matching_names : List Window → Civil → Civil → Result ScheduleError (List String)
unfolding matches
matching_names [] local yesterday = ok []
matching_names (w ∷ rest) local yesterday =
    let later = matching_names rest local yesterday in
    wrap (bad_window w.name) (matches w local yesterday) >>= λ matched.
    later >>= λ names. ok (if matched then w.name ∷ names else names)

-- `matches[0]` of the sorted names; `none` is `("", false)`.
abbrev pub first : List String → Option String
first [] = none
first (name ∷ names) = some name

module _ (Z : Zones) where
  unfoldable pub match_local :
      List Window → Option Z.Location → String → Time → Result ScheduleError (Option String)
  unfolding matching_names sort_strings
  match_local windows none zone now = err (unknown_time_zone zone)
  match_local windows (some location) zone now =
      matching_names windows (Z.civil location now) (Z.day_before location now) >>= λ names.
      ok (first (sort_strings names))

  -- `Match`
  unfoldable pub match_windows : Time → String → List Window → Result ScheduleError (Option String)
  unfolding match_local
  match_windows now zone windows = match_local windows (Z.load zone) zone now
