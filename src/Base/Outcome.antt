-- ===== src/Base/Outcome.antt =====
-- Go's `(value, error)`: a value, or a non-nil error.
use mathlib.Core.Path.{◌≡◌, refl, ap}
use mathlib.Core.Logic.{◌⊎◌, inl, inr}
use mathlib.Core.Bool.{Bool, true, false}
use mathlib.Core.Option.{Option, none, some}
use kube_workload_lm.Base.Bools.{if◌then◌else◌}
use native.Mathlib.Omega.{arith}

pub data Result {ℓ κ} (E : Type ℓ) (A : Type κ) : Type (ℓ ⊔ κ) where
  ok : A → Result E A
  err : E → Result E A

infixl 5 ◌>>=◌ ◌>>◌
abbrev pub ◌>>=◌ {ℓ κ μ} :
    {E : Type ℓ} {A : Type κ} {B : Type μ} → Result E A → (A → Result E B) → Result E B
ok a >>= f = f a
err e >>= f = err e

abbrev pub ◌>>◌ {ℓ μ} : {E : Type ℓ} {B : Type μ} → Result E (Unit {0}) → Result E B → Result E B
m >> k = m >>= λ _. k

-- `if bad { return error }`
abbrev pub fail_if {ℓ} : {E : Type ℓ} → Bool → E → Result E (Unit {0})
fail_if true e = err e
fail_if false e = ok tt

-- `fmt.Errorf("…: %w", err)`: an error passed on inside another one.
abbrev pub wrap {ℓ κ μ} : {E : Type ℓ} {F : Type κ} {A : Type μ} → (E → F) → Result E A → Result F A
wrap f (ok a) = ok a
wrap f (err e) = err (f e)

abbrev pub succeeds {ℓ κ} : {E : Type ℓ} {A : Type κ} → Result E A → Bool
succeeds (ok a) = true
succeeds (err e) = false

pub Result-cases {ℓ κ} :
    {E : Type ℓ} {A : Type κ} (r : Result E A) → ((a : A) × (r ≡ ok a)) ⊎ ((e : E) × (r ≡ err e))
Result-cases (ok a) = inl (a, refl)
Result-cases (err e) = inr (e, refl)

-- What a chain that succeeds went through.
pub bind_ok {ℓ κ μ} :
    {E : Type ℓ} {A : Type κ} {B : Type μ} (r : Result E A) (f : A → Result E B) (b : B)
    → (r >>= f) ≡ ok b
    → (a : A) × (r ≡ ok a) × (f a ≡ ok b)
bind_ok (ok a) f b h = (a, refl, h)
bind_ok (err e) f b h = grind arith

pub ok_injective {ℓ κ} :
    {E : Type ℓ} {A : Type κ} (a b : A) → ◌≡◌ {A = Result E A} (ok a) (ok b) → a ≡ b
ok_injective a b h = grind arith

-- A guard that a success went past.
pub guard_ok {ℓ κ} :
    {E : Type ℓ} {A : Type κ} (bad : Bool) (e : E) (r : Result E A) (a : A)
    → (if bad then err e else r) ≡ ok a
    → (bad ≡ false) × (r ≡ ok a)
guard_ok true e r a h = grind arith
guard_ok false e r a h = (refl, h)

-- A test that a success passed.
pub granted_ok {ℓ κ} :
    {E : Type ℓ} {A : Type κ} (good : Bool) (e : E) (r : Result E A) (a : A)
    → (if good then r else err e) ≡ ok a
    → r ≡ ok a
granted_ok true e r a h = h
granted_ok false e r a h = grind arith

pub wrap_ok {ℓ κ μ} :
    {E : Type ℓ} {F : Type κ} {A : Type μ} (f : E → F) (r : Result E A) (a : A)
    → wrap f r ≡ ok a
    → r ≡ ok a
wrap_ok f (ok b) a h = ap ok (ok_injective b a h)
wrap_ok f (err e) a h = grind arith

-- A value that must be there.
pub given_ok {ℓ κ μ} :
    {E : Type ℓ} {A : Type κ} {B : Type μ} (o : Option B) (e : E) (f : B → Result E A) (a : A)
    → (elim o [ none ↦ err e | some b ↦ f b ]) ≡ ok a
    → (b : B) × (o ≡ some b) × (f b ≡ ok a)
given_ok none e f a h = grind arith
given_ok (some b) e f a h = (b, refl, h)
