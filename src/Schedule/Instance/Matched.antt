-- ===== src/Schedule/Instance/Matched.antt =====
-- A window that `Match` of internal/schedule/window.go returns has a cycle: `WindowInstanceID` of
-- internal/schedule/instance.go does not fail on it.
use kube_workload_lm.Base.{
  ℕ, String, ◌==◌, ◌||◌, ◌=?◌, is_empty, eq_iff, Bool, true, false, Option, none, some, List, [],
  ◌∷◌, ok, err, ◌≡◌, refl, sym, subst, arith, All, wrap, bind_ok, wrap_ok, ok_injective,
  if◌then◌else◌, any, sort_strings, any-sort_strings, ◌∙◌, fail_if, Bool-cases, inl, inr,
}
use kube_workload_lm.Base.Time.{Time}
use kube_workload_lm.Schedule.Calendar.{Civil, Zones}
use kube_workload_lm.Schedule.Clock.{parse_minute}
use kube_workload_lm.Schedule.Window.{
  Window, contains, check_days, parse_times, ignore, check_all_day, equal_times, empty_name,
  no_start_days, validate_window, matches, bad_window, invalid_start, invalid_end,
  unknown_time_zone, matching_names, first, match_local, match_windows,
}
use kube_workload_lm.Schedule.Instance.{
  find_window, start_of_cycle, start_of_times, format_id, id_of, window_instance_id,
}

abbrev IsValid : Window → Type 0
IsValid w = validate_window w ≡ ok tt

pub parse_times_ok :
    (w : Window) (times : ℕ × ℕ)
    → parse_times w ≡ ok times
    → (parse_minute w.start ≡ ok times.0) × (parse_minute w.end ≡ ok times.1)
unfolding parse_times
parse_times_ok w times h =
    let (start, s, h₁) = bind_ok (wrap invalid_start (parse_minute w.start)) _ times h in
    let (end, e, h₂) = bind_ok (wrap invalid_end (parse_minute w.end)) _ times h₁ in
    let (u, _, h₃) = bind_ok (fail_if (start =? end) equal_times) _ times h₂ in
    subst (λ t. (parse_minute w.start ≡ ok t.0) × (parse_minute w.end ≡ ok t.1))
      (ok_injective (start, end) times h₃)
      (wrap_ok invalid_start _ start s, wrap_ok invalid_end _ end e)

pub validate_window_times :
    (w : Window) → IsValid w → w.all_day ≡ false → (times : ℕ × ℕ) × (parse_times w ≡ ok times)
unfolding validate_window
validate_window_times w h e =
    let (_, _, h₁) = bind_ok (fail_if (w.name == "") empty_name) _ tt h in
    let (_, _, h₂) = bind_ok (fail_if (is_empty w.start_days) no_start_days) _ tt h₁ in
    let (_, _, h₃) = bind_ok (check_days w.start_days []) _ tt h₂ in
    let h₄ = subst (λ b. (if b then check_all_day w else ignore (parse_times w)) ≡ ok tt) e h₃ in
    let (times, found, _) = bind_ok (parse_times w) _ tt h₄ in (times, found)

matching_names-IsValid :
    (windows : List Window) (local yesterday : Civil) (names : List String)
    → matching_names windows local yesterday ≡ ok names
    → All IsValid windows
unfolding matching_names matches
matching_names-IsValid [] local yesterday names h = tt
matching_names-IsValid (w ∷ rest) local yesterday names h =
    let (matched, m, h₁) =
      bind_ok (wrap (bad_window w.name) (matches w local yesterday)) _ names h in
    let (others, o, h₂) = bind_ok (matching_names rest local yesterday) _ names h₁ in
    let (u, valid, _) =
      bind_ok (validate_window w) _ matched
        (wrap_ok (bad_window w.name) (matches w local yesterday) matched m) in
    (valid, matching_names-IsValid rest local yesterday others o)

found_in_either :
    (matched : Bool) (w : Window) (others : List String) (name : String) (later : Bool)
    → (contains others name ≡ true → later ≡ true)
    → contains (if matched then w.name ∷ others else others) name ≡ true
    → (w.name == name || later) ≡ true
found_in_either true w others name later h c = ground arith
found_in_either false w others name later h c = ground arith

-- The names are those of windows in the list.
matching_names_found :
    (windows : List Window) (local yesterday : Civil) (names : List String) (name : String)
    → matching_names windows local yesterday ≡ ok names
    → contains names name ≡ true
    → any (λ w. w.name == name) windows ≡ true
unfolding matching_names
matching_names_found [] local yesterday names name h c =
    subst (λ l. contains l name ≡ true) (sym (ok_injective [] names h)) c
matching_names_found (w ∷ rest) local yesterday names name h c =
    let (matched, m, h₁) =
      bind_ok (wrap (bad_window w.name) (matches w local yesterday)) _ names h in
    let (others, o, h₂) = bind_ok (matching_names rest local yesterday) _ names h₁ in
    let c₁ = subst (λ l. contains l name ≡ true) (sym (ok_injective _ names h₂)) c in
    found_in_either matched w others name (any (λ v. v.name == name) rest)
      (matching_names_found rest local yesterday others name o) c₁

find_window-IsValid :
    (name : String) (windows : List Window)
    → All IsValid windows
    → any (λ w. w.name == name) windows ≡ true
    → (w : Window) × (find_window name windows ≡ some w) × IsValid w
unfolding find_window
find_window-IsValid name [] valid h = ground arith
find_window-IsValid name (w ∷ rest) valid h = elim (Bool-cases (w.name == name)) [
  | inl hit ↦ (w, rw hit refl, valid.0)
  | inr miss ↦
      let (v, found, sound) =
        find_window-IsValid name rest valid.1
          (subst (λ b. (b || any (λ v. v.name == name) rest) ≡ true) miss h) in
      (v, rw miss found, sound)
]

start_of_cycle_ok :
    (w : Window) (local yesterday : Civil)
    → IsValid w
    → (start : Civil) × (start_of_cycle w local yesterday ≡ ok start)
unfolding start_of_cycle
start_of_cycle_ok w local yesterday valid = elim (Bool-cases w.all_day) [
  | inl hit ↦ (local, rw hit refl)
  | inr miss ↦
      let (times, p) = validate_window_times w valid miss in
      let (s, e) = parse_times_ok w times p in
      (start_of_times local yesterday times.0 times.1, rw (miss, s, e) refl)
]

first_found : (l : List String) (name : String) → first l ≡ some name → contains l name ≡ true
first_found [] name h = ground arith
first_found (s ∷ rest) name h = ground (arith, eq_iff s name)

module _ (Z : Zones) where
  id_of_ok :
      (o : Option Window) (w : Window) (location : Z.Location) (name : String) (now : Time)
      → o ≡ some w
      → IsValid w
      → (id : String) × (id_of Z o location name now ≡ ok id)
  unfolding id_of
  id_of_ok o w location name now found valid =
      let (start, s) =
        start_of_cycle_ok w (Z.civil location now) (Z.day_before location now) valid in
      (format_id name start, rw (found, s) refl)

  match_local_has_id :
      (now : Time) (zone name : String) (windows : List Window) (location : Z.Location)
      → match_local Z windows (some location) zone now ≡ ok (some name)
      → (id : String) × (id_of Z (find_window name windows) location name now ≡ ok id)
  unfolding match_local
  match_local_has_id now zone name windows location h =
      let (names, n, h₁) =
        bind_ok (matching_names windows (Z.civil location now) (Z.day_before location now)) _
          (some name) h in
      let listed = first_found (sort_strings names) name (ok_injective _ (some name) h₁) in
      let found =
        matching_names_found windows _ _ names name n
          (sym (any-sort_strings (λ d. d == name) names) ∙ listed) in
      let (w, f, valid) =
        find_window-IsValid name windows (matching_names-IsValid windows _ _ names n) found in
      id_of_ok (find_window name windows) w location name now f valid

  located_has_id :
      (now : Time) (zone name : String) (windows : List Window) (o : Option Z.Location)
      → match_local Z windows o zone now ≡ ok (some name)
      → (id : String) × ((elim o [
        | none ↦ err (unknown_time_zone zone)
        | some location ↦ id_of Z (find_window name windows) location name now
      ])
          ≡ ok id)
  unfolding match_local
  located_has_id now zone name windows none h = ground arith
  located_has_id now zone name windows (some location) h =
      match_local_has_id now zone name windows location h

  -- For a window that Match returns, the identifier of its cycle is found: no error of the time
  -- zone, of the window's times or of its name comes up any more.
  pub match_windows_has_id :
      (now : Time) (zone name : String) (windows : List Window)
      → match_windows Z now zone windows ≡ ok (some name)
      → (id : String) × (window_instance_id Z now zone name windows ≡ ok id)
  unfolding match_windows window_instance_id
  match_windows_has_id now zone name windows h =
      located_has_id now zone name windows (Z.load zone) h
