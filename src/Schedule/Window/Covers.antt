-- ===== src/Schedule/Window/Covers.antt =====
-- What it means for an instant to lie in a window: some start day of the window, today or yesterday,
-- has an interval that holds it.
use kube_workload_lm.Base.{ℕ, ◌+◌, ◌≤◌, ◌<◌, true, List, ◌≡◌, ◌↔◌, ◌⊎◌, arith, ltb, if◌then◌else◌}
use kube_workload_lm.Schedule.Calendar.{Day, Civil, from_weekday}
use kube_workload_lm.Schedule.Window.{contains, minute_of_day, in_times}

-- The end of the interval, in minutes after the start day's midnight: a window whose end is not after
-- its start ends on the next day.
abbrev pub end_minute : ℕ → ℕ → ℕ
end_minute start end = if ltb start end then end else end + 1440

-- The minute `lag` days after the start day's midnight lies in the interval.
abbrev pub Holds : ℕ → ℕ → ℕ → Type 0
Holds minute start stop = (start ≤ minute) × (minute < stop)

abbrev pub Covers : List Day → Civil → Civil → ℕ → ℕ → Type 0
Covers days local yesterday start end =
    ((contains days (from_weekday local.weekday) ≡ true)
      × Holds (minute_of_day local) start (end_minute start end))
    ⊎ ((contains days (from_weekday yesterday.weekday) ≡ true)
        × Holds (minute_of_day local + 1440) start (end_minute start end))

-- At every minute of a day and for all times of a day, the test of a window with times holds
-- exactly if some start day of the window, today or yesterday, has an interval that holds the
-- minute.
pub in_times_iff :
    (days : List Day) (local yesterday : Civil) (start end : ℕ)
    → minute_of_day local < 1440
    → start < 1440
    → end < 1440
    → (in_times days local yesterday (start, end) ≡ true) ↔ Covers days local yesterday start end
unfolding in_times
in_times_iff days local yesterday start end m s e = ground arith
