-- ===== src/Base/Text.antt =====
-- Go strings as native texts: `==`, the order `<` that `sort.Strings` uses (code point by code
-- point, which is the order of the UTF-8 bytes), and `sort.Strings`.
use Prim.Native.Nat.{ℕ, compare, Ordering}
use Prim.Native.Char.{Char, code}
use Prim.Native.String.{String}
use mathlib.Core.Path.{◌≡◌, refl, ap₂}
use mathlib.Core.Logic.{◌⊎◌, inl, inr, ◌≢◌}
use mathlib.Core.Bool.{Bool, true, false, ◌||◌}
use mathlib.Core.Option.{Option, none, some}
use mathlib.Core.List.{List, [], ◌∷◌}
use native.Mathlib.Omega.{arith}
use text.Mathlib.TextEquality.{Char-path, eq_iff}
use kube_workload_lm.Base.Lists.{any, is_empty}
use kube_workload_lm.Base.Bools.{if◌then◌else◌, Bool-cases}
pub use text.Mathlib.Text.{◌==◌}
pub use text.Mathlib.TextEquality.{eq_iff}
pub use text.Mathlib.TextPositions.{eq_refl}

abbrev pub codes : String → List ℕ
codes String.[] = []
codes (String.◌∷◌ c s) = code c ∷ codes s

-- `s <= t`
unfoldable pub str_leb : String → String → Bool
str_leb String.[] t = true
str_leb (String.◌∷◌ c s) String.[] = false
str_leb (String.◌∷◌ c s) (String.◌∷◌ d t) = elim (compare (code c) (code d)) [
  | Ordering.lt ↦ true
  | Ordering.eq ↦ str_leb s t
  | Ordering.gt ↦ false
]

pub str_leb_refl : (s : String) → str_leb s s ≡ true
unfolding str_leb
str_leb_refl String.[] = refl
str_leb_refl (String.◌∷◌ c s) = ground (arith, str_leb_refl s)

pub str_leb_total : (s t : String) → (str_leb s t ≡ true) ⊎ (str_leb t s ≡ true)
unfolding str_leb
str_leb_total String.[] t = inl refl
str_leb_total (String.◌∷◌ c s) String.[] = inr refl
str_leb_total (String.◌∷◌ c s) (String.◌∷◌ d t) = ground (arith, str_leb_total s t)

pub str_leb_trans : (s t u : String) → str_leb s t ≡ true → str_leb t u ≡ true → str_leb s u ≡ true
unfolding str_leb
str_leb_trans String.[] t u h k = refl
str_leb_trans (String.◌∷◌ c s) String.[] u h k = cc
str_leb_trans (String.◌∷◌ c s) (String.◌∷◌ d t) String.[] h k = cc
str_leb_trans (String.◌∷◌ c s) (String.◌∷◌ d t) (String.◌∷◌ e u) h k =
    ground (arith, str_leb_trans s t u)

cons_path : (c d : Char) (s t : String) → code c ≡ code d → s ≡ t → String.◌∷◌ c s ≡ String.◌∷◌ d t
cons_path c d s t p q = ap₂ String.◌∷◌ (Char-path c d p) q

pub str_leb_antisymm : (s t : String) → str_leb s t ≡ true → str_leb t s ≡ true → s ≡ t
unfolding str_leb
str_leb_antisymm String.[] String.[] h k = refl
str_leb_antisymm String.[] (String.◌∷◌ d t) h k = cc
str_leb_antisymm (String.◌∷◌ c s) String.[] h k = cc
str_leb_antisymm (String.◌∷◌ c s) (String.◌∷◌ d t) h k =
    ground (arith, str_leb_antisymm s t, cons_path c d s t)

below_of_not_above : (s t : String) → str_leb s t ≡ false → str_leb t s ≡ true
below_of_not_above s t h = ground (arith, str_leb_total s t)

insert_str : String → List String → List String
insert_str s [] = s ∷ []
insert_str s (t ∷ ts) = if str_leb s t then s ∷ t ∷ ts else t ∷ insert_str s ts

-- `sort.Strings`
unfoldable pub sort_strings : List String → List String
unfolding insert_str str_leb
sort_strings [] = []
sort_strings (s ∷ ss) = insert_str s (sort_strings ss)

insert_str_some : (s : String) (l : List String) → is_empty (insert_str s l) ≡ false
unfolding insert_str
insert_str_some s [] = refl
insert_str_some s (t ∷ ts) = ground arith

pub sort_strings_some : (s : String) (l : List String) → is_empty (sort_strings (s ∷ l)) ≡ false
unfolding sort_strings
sort_strings_some s l = insert_str_some s (sort_strings l)

any-insert_str :
    (p : String → Bool) (s : String) (l : List String) → any p (insert_str s l) ≡ (p s || any p l)
unfolding insert_str
any-insert_str p s [] = refl
any-insert_str p s (t ∷ ts) = ground (arith, any-insert_str p s ts)

-- Sorting neither adds a string nor drops one.
pub any-sort_strings : (p : String → Bool) (l : List String) → any p (sort_strings l) ≡ any p l
unfolding sort_strings
any-sort_strings p [] = refl
any-sort_strings p (s ∷ ss) = rw (any-insert_str, any-sort_strings p ss) refl

-- A string, if there is one, is not above the first of the list.
abbrev pub IsBelow : Option String → List String → Type 0
IsBelow none l = Unit
IsBelow (some b) [] = Unit
IsBelow (some b) (s ∷ l) = str_leb b s ≡ true

abbrev pub IsAscending : List String → Type 0
IsAscending [] = Unit
IsAscending (s ∷ l) = IsBelow (some s) l × IsAscending l

insert_str-IsBelow :
    (b s : String) (l : List String)
    → str_leb b s ≡ true
    → IsBelow (some b) l
    → IsBelow (some b) (insert_str s l)
unfolding insert_str
insert_str-IsBelow b s [] h below = h
insert_str-IsBelow b s (t ∷ ts) h below = ground arith

insert_str-IsAscending :
    (s : String) (l : List String) → IsAscending l → IsAscending (insert_str s l)
unfolding insert_str
insert_str-IsAscending s [] asc = (tt, tt)
insert_str-IsAscending s (t ∷ ts) asc = elim (Bool-cases (str_leb s t)) [
  | inl hit ↦ rw hit (hit, asc)
  | inr miss ↦ rw miss (
    insert_str-IsBelow t s ts (below_of_not_above s t miss) asc.0,
    insert_str-IsAscending s ts asc.1,
  )
]

pub sort_strings-IsAscending : (l : List String) → IsAscending (sort_strings l)
unfolding sort_strings
sort_strings-IsAscending [] = tt
sort_strings-IsAscending (s ∷ ss) =
    insert_str-IsAscending s (sort_strings ss) (sort_strings-IsAscending ss)

pub ==_of_eq : (s t : String) → s ≡ t → (s == t) ≡ true
==_of_eq s t e = (eq_iff s t).1 e

pub ==_of_ne : (s t : String) → s ≢ t → (s == t) ≡ false
==_of_ne s t h = ground (arith, eq_iff s t)
