-- ===== src/Schedule/Calendar.antt =====
-- Go's local calendar as internal/schedule uses it: the names of days, and a time zone database,
-- which is a parameter, since the zones are not part of the repository.
use kube_workload_lm.Base.{ℕ, ◌<◌, ◌≡◌, String, Option}
use kube_workload_lm.Base.Time.{Time}

-- time.Weekday
pub data Weekday : Type 0 where
  sunday monday tuesday wednesday thursday friday saturday : Weekday

-- `type Day string`
abbrev pub Day : Type 0
Day = String

-- `fromWeekday`
unfoldable pub from_weekday : Weekday → Day
from_weekday sunday = "SUN"
from_weekday monday = "MON"
from_weekday tuesday = "TUE"
from_weekday wednesday = "WED"
from_weekday thursday = "THU"
from_weekday friday = "FRI"
from_weekday saturday = "SAT"

unfoldable pub previous : Weekday → Weekday
previous sunday = saturday
previous monday = sunday
previous tuesday = monday
previous wednesday = tuesday
previous thursday = wednesday
previous friday = thursday
previous saturday = friday

-- A local time as the code reads it; `date` is its `Format("2006-01-02")`.
pub record Civil : Type 0 where
  pub hour : ℕ
  pub minute : ℕ
  pub weekday : Weekday
  pub date : String

pub record Zones : Type 1 where
  pub Location : Type 0
  -- `time.LoadLocation`
  pub load : String → Option Location
  -- `now.In(location)`
  pub civil : Location → Time → Civil
  -- `now.In(location).AddDate(0, 0, -1)`
  pub day_before : Location → Time → Civil

-- What the time package documents of a local time. That the date a day earlier falls on the
-- day of the week before holds wherever that date has the local time of day.
pub record IsLawful (Z : Zones) : Type 0 where
  pub hour_bound : (l : Z.Location) (t : Time) → (Z.civil l t).hour < 24
  pub minute_bound : (l : Z.Location) (t : Time) → (Z.civil l t).minute < 60
  pub weekday_before :
      (l : Z.Location) (t : Time) → (Z.day_before l t).weekday ≡ previous (Z.civil l t).weekday
