-- ===== src/Schedule/Window/Interval.antt =====
-- The whole test of a window with times, `Window.matches` of internal/schedule/window.go with its
-- validation and its parsing, as an interval of time.
use kube_workload_lm.Base.{
  ℕ, ◌<◌, Bool, true, false, ok, ◌≡◌, ◌↔◌, refl, sym, ◌∙◌, ap, subst, ok_injective, ◌>>◌,
}
use kube_workload_lm.Schedule.Calendar.{Civil}
use kube_workload_lm.Schedule.Clock.{parse_minute}
use kube_workload_lm.Schedule.Clock.Bounds.{parse_minute_below}
use kube_workload_lm.Schedule.Window.{
  Window, in_times, minute_of_day, parse_times, validate_window, matches, matches_valid,
}
use kube_workload_lm.Schedule.Window.Covers.{Covers, in_times_iff}
use kube_workload_lm.Schedule.Instance.Matched.{validate_window_times, parse_times_ok}

matches_valid_times :
    (w : Window) (local yesterday : Civil) (times : ℕ × ℕ)
    → w.all_day ≡ false
    → parse_times w ≡ ok times
    → matches_valid w local yesterday ≡ ok (in_times w.start_days local yesterday times)
unfolding matches_valid parse_times
matches_valid_times w local yesterday times timed p = rw (timed, p) refl

matches_times :
    (w : Window) (local yesterday : Civil) (times : ℕ × ℕ)
    → validate_window w ≡ ok tt
    → w.all_day ≡ false
    → parse_times w ≡ ok times
    → matches w local yesterday ≡ ok (in_times w.start_days local yesterday times)
unfolding matches
matches_times w local yesterday times valid timed p =
    subst
      (λ r.
        (r >> matches_valid w local yesterday) ≡ ok (in_times w.start_days local yesterday times))
      (sym valid) (matches_valid_times w local yesterday times timed p)

-- At every minute of a day, a valid window that does not last all day, with the times start and
-- end, matches exactly while some start day of it, today or yesterday, has an interval that
-- holds the minute; and the test never fails on it.
pub matches_iff :
    (w : Window) (local yesterday : Civil) (start end : ℕ)
    → validate_window w ≡ ok tt
    → w.all_day ≡ false
    → parse_minute w.start ≡ ok start
    → parse_minute w.end ≡ ok end
    → minute_of_day local < 1440
    → ((matches w local yesterday ≡ ok true) ↔ Covers w.start_days local yesterday start end)
      × ((b : Bool) × (matches w local yesterday ≡ ok b))
matches_iff w local yesterday start end valid timed s e minute =
    let (times, p) = validate_window_times w valid timed in
    let (s', e') = parse_times_ok w times p in
    let first = ok_injective times.0 start (sym s' ∙ s) in
    let last = ok_injective times.1 end (sym e' ∙ e) in
    let answer =
      subst (λ e. matches w local yesterday ≡ ok (in_times w.start_days local yesterday (start, e)))
        last
        (subst
          (λ s. matches w local yesterday ≡ ok (in_times w.start_days local yesterday (s, times.1)))
          first (matches_times w local yesterday times valid timed p)) in
    let (to, from) =
      in_times_iff w.start_days local yesterday start end minute
        (parse_minute_below w.start start s) (parse_minute_below w.end end e) in
    ((λ m. to (ok_injective _ true (sym answer ∙ m)), λ c. answer ∙ ap ok (from c)), (_, answer))
