-- ===== src/Schedule/Clock.antt =====
-- `parseMinute` of internal/schedule/window.go, with strings.Split at a colon and strconv.Atoi. The
-- texts that reach `atoi` have two bytes, so its range error does not arise.
pub mod Bounds
use Prim.Native.Char.{Char, code}
use kube_workload_lm.Base.{
  ℕ, ◌+◌, ◌*◌, ◌-◌, String, len, Bool, ◌&&◌, Option, none, some, List, [], ◌∷◌, Result, ok, err,
  leb, ◌=?◌, if◌then◌else◌,
}
use kube_workload_lm.Base.Int.{ℤ, pos, negsuc}

abbrev push : Char → List String → List String
push c [] = String.◌∷◌ c String.[] ∷ []
push c (part ∷ parts) = String.◌∷◌ c part ∷ parts

-- `strings.Split(value, ":")`
unfoldable pub split_colon : String → List String
split_colon String.[] = String.[] ∷ []
split_colon (String.◌∷◌ c s) =
    let rest = split_colon s in if code c =? b':' then String.[] ∷ rest else push c rest

abbrev is_digit : ℕ → Bool
is_digit c = leb b'0' c && leb c b'9'

digits : String → ℕ → Option ℕ
digits String.[] acc = some acc
digits (String.◌∷◌ c s) acc =
    if is_digit (code c) then digits s (acc * 10 + (code c - b'0')) else none

unsigned : String → Option ℕ
unsigned String.[] = none
unsigned (String.◌∷◌ c s) = digits (String.◌∷◌ c s) 0

abbrev positive : Option ℕ → Option ℤ
positive none = none
positive (some n) = some (pos n)

abbrev negative : Option ℕ → Option ℤ
negative none = none
negative (some n) = some (if n =? 0 then pos 0 else negsuc (n - 1))

-- `strconv.Atoi`: one sign is allowed.
unfoldable pub atoi : String → Option ℤ
unfolding unsigned digits
atoi String.[] = none
atoi (String.◌∷◌ c s) =
    if code c =? b'-'
    then negative (unsigned s)
    else if code c =? b'+'
    then positive (unsigned s)
    else positive (unsigned (String.◌∷◌ c s))

pub data ClockError : Type 0 where
  must_use_hh_mm out_of_range : ClockError

-- The value, if it is there and between 0 and the limit.
abbrev in_range : Option ℤ → ℕ → Option ℕ
in_range none limit = none
in_range (some (negsuc n)) limit = none
in_range (some (pos n)) limit = if leb n limit then some n else none

abbrev combine : Option ℕ → Option ℕ → Result ClockError ℕ
combine none m = err out_of_range
combine (some h) none = err out_of_range
combine (some h) (some m) = ok (h * 60 + m)

unfoldable pub parse_parts : List String → Result ClockError ℕ
parse_parts (h ∷ m ∷ []) =
    if len h =? 2 && len m =? 2
    then combine (in_range (atoi h) 23) (in_range (atoi m) 59)
    else err must_use_hh_mm
parse_parts _ = err must_use_hh_mm

unfoldable pub parse_minute : String → Result ClockError ℕ
unfolding split_colon parse_parts atoi
parse_minute value = parse_parts (split_colon value)
