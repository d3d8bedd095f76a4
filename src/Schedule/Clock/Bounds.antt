-- ===== src/Schedule/Clock/Bounds.antt =====
-- What `parseMinute` of internal/schedule/window.go returns lies within one day.
use kube_workload_lm.Base.{
  ℕ, ◌<◌, String, true, Option, none, some, List, [], ◌∷◌, ok, ◌≡◌, refl, arith, leb,
}
use kube_workload_lm.Base.Int.{ℤ, pos, negsuc}
use kube_workload_lm.Schedule.Clock.{
  in_range, combine, atoi, parse_parts, parse_minute, split_colon,
}

in_range_le : (v : Option ℤ) (limit n : ℕ) → in_range v limit ≡ some n → leb n limit ≡ true
in_range_le none limit n h = ground arith
in_range_le (some (negsuc k)) limit n h = ground arith
in_range_le (some (pos k)) limit n h = ground arith

combine_below :
    (h m : Option ℕ) (v : ℕ)
    → ((n : ℕ) → h ≡ some n → leb n 23 ≡ true)
    → ((n : ℕ) → m ≡ some n → leb n 59 ≡ true)
    → combine h m ≡ ok v
    → v < 1440
combine_below none m v p q e = ground arith
combine_below (some h) none v p q e = ground arith
combine_below (some h) (some m) v p q e = let a = p h refl in let b = q m refl in ground arith

parse_parts_below : (parts : List String) (v : ℕ) → parse_parts parts ≡ ok v → v < 1440
unfolding parse_parts
parse_parts_below [] v e = ground arith
parse_parts_below (h ∷ []) v e = ground arith
parse_parts_below (h ∷ m ∷ x ∷ rest) v e = ground arith
parse_parts_below (h ∷ m ∷ []) v e =
    combine_below (in_range (atoi h) 23) (in_range (atoi m) 59) v (in_range_le (atoi h) 23)
      (in_range_le (atoi m) 59) (ground arith)

-- A clock time that is accepted is a minute of one day.
pub parse_minute_below : (value : String) (v : ℕ) → parse_minute value ≡ ok v → v < 1440
unfolding parse_minute
parse_minute_below value v e = parse_parts_below (split_colon value) v e
