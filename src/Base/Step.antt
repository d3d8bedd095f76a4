-- ===== src/Base/Step.antt =====
-- A Go method that may fail, as a function from the state before to its outcome and the state after,
-- and what holds of the state after each way to build one.
use mathlib.Core.Path.{◌≡◌, refl, ap}
use kube_workload_lm.Base.Outcome.{Result, ok, err}

abbrev pub Step : Type 0 → Type 0 → Type 0 → Type 0
Step S E A = S → Result E A × S

module _ {S E A : Type 0} where
  abbrev pub give : A → Step S E A
  give a s = (ok a, s)

  abbrev pub fail : E → Step S E A
  fail e s = (err e, s)

  abbrev pub of_result : Result E A → Step S E A
  of_result r s = (r, s)

module _ {S E A B : Type 0} where
  abbrev pub go_on : Result E A × S → (A → Step S E B) → Result E B × S
  go_on (ok a, s) f = f a s
  go_on (err e, s) f = (err e, s)

  unfoldable pub and_then : Step S E A → (A → Step S E B) → Step S E B
  and_then m f s = go_on (m s) f

  pub and_then_ok :
      (m : Step S E A) (f : A → Step S E B) (a : A) (s s' : S)
      → m s ≡ (ok a, s')
      → and_then m f s ≡ f a s'
  unfolding and_then
  and_then_ok m f a s s' h = ap (λ r. go_on r f) h

module _ {S E F A : Type 0} where
  abbrev pub relabel : (E → F) → Result E A × S → Result F A × S
  relabel f (ok a, s) = (ok a, s)
  relabel f (err e, s) = (err (f e), s)

  -- `fmt.Errorf("…: %w", err)`
  unfoldable pub wrap_step : (E → F) → Step S E A → Step S F A
  wrap_step f m s = relabel f (m s)

module _ {S E A : Type 0} where
  abbrev pub Post : (A → S → Type 0) → (E → S → Type 0) → Result E A × S → Type 0
  Post Q R (ok a, s) = Q a s
  Post Q R (err e, s) = R e s

  -- From a state with `P`, a success ends with `Q` and a failure with `R`.
  pub record Hoare (P : S → Type 0) (m : Step S E A) (Q : A → S → Type 0) (R : E → S → Type 0)
      : Type 0 where
    pub at : (s : S) → P s → Post Q R (m s)

  pub Hoare-give :
      {P : S → Type 0} {Q : A → S → Type 0} {R : E → S → Type 0} (a : A)
      → ((s : S) → P s → Q a s)
      → Hoare P (give a) Q R
  Hoare-give a h = record { at = h }

  pub Hoare-fail :
      {P : S → Type 0} {Q : A → S → Type 0} {R : E → S → Type 0} (e : E)
      → ((s : S) → P s → R e s)
      → Hoare P (fail e) Q R
  Hoare-fail e h = record { at = h }

  of_result-Post :
      (Q : A → S → Type 0) (R : E → S → Type 0) (r : Result E A) (s : S)
      → ((a : A) → r ≡ ok a → Q a s)
      → ((e : E) → r ≡ err e → R e s)
      → Post Q R (of_result r s)
  of_result-Post Q R (ok a) s hq hr = hq a refl
  of_result-Post Q R (err e) s hq hr = hr e refl

  pub Hoare-of_result :
      {P : S → Type 0} {Q : A → S → Type 0} {R : E → S → Type 0} (r : Result E A)
      → ((a : A) → r ≡ ok a → (s : S) → P s → Q a s)
      → ((e : E) → r ≡ err e → (s : S) → P s → R e s)
      → Hoare P (of_result r) Q R
  Hoare-of_result {Q} {R} r hq hr = record {
    at = λ s p. of_result-Post Q R r s (λ a e. hq a e s p) (λ e h. hr e h s p);
  }

  -- What holds in the end, however it ends.
  pub Post-both : (P : S → Type 0) (r : Result E A × S) → Post (λ _. P) (λ _. P) r → P r.1
  Post-both P (ok a, s) h = h
  Post-both P (err e, s) h = h

  weaken-Post :
      {Q Q' : A → S → Type 0} {R R' : E → S → Type 0} (r : Result E A × S)
      → ((a : A) (s : S) → Q a s → Q' a s)
      → ((e : E) (s : S) → R e s → R' e s)
      → Post Q R r
      → Post Q' R' r
  weaken-Post (ok a, s) hq hr p = hq a s p
  weaken-Post (err e, s) hq hr p = hr e s p

  pub Hoare-weaken :
      {P P' : S → Type 0} {Q Q' : A → S → Type 0} {R R' : E → S → Type 0} (m : Step S E A)
      → ((s : S) → P' s → P s)
      → ((a : A) (s : S) → Q a s → Q' a s)
      → ((e : E) (s : S) → R e s → R' e s)
      → Hoare P m Q R
      → Hoare P' m Q' R'
  Hoare-weaken m hp hq hr h = record { at = λ s p. weaken-Post (m s) hq hr (h.at s (hp s p)) }

  -- A fact that does not depend on the state.
  pub Hoare-given :
      {F : Type 0} {P : S → Type 0} {Q : A → S → Type 0} {R : E → S → Type 0} (m : Step S E A)
      → (F → Hoare P m Q R)
      → Hoare (λ s. F × P s) m Q R
  Hoare-given m h = record { at = λ s p. (h p.0).at s p.1 }

module _ {S E A B : Type 0} where
  go_on-Post :
      (Q : A → S → Type 0) (Q' : B → S → Type 0) (R : E → S → Type 0) (r : Result E A × S)
      (f : A → Step S E B)
      → Post Q R r
      → ((a : A) → Hoare (Q a) (f a) Q' R)
      → Post Q' R (go_on r f)
  go_on-Post Q Q' R (ok a, s) f h k = (k a).at s h
  go_on-Post Q Q' R (err e, s) f h k = h

  pub Hoare-and_then :
      {P : S → Type 0} {Q : A → S → Type 0} {Q' : B → S → Type 0} {R : E → S → Type 0}
      (m : Step S E A) (f : A → Step S E B)
      → Hoare P m Q R
      → ((a : A) → Hoare (Q a) (f a) Q' R)
      → Hoare P (and_then m f) Q' R
  unfolding and_then
  Hoare-and_then {Q} {Q'} {R} m f h k = record {
    at = λ s p. go_on-Post Q Q' R (m s) f (h.at s p) k;
  }

module _ {S E F A : Type 0} where
  relabel-Post :
      (Q : A → S → Type 0) (R : F → S → Type 0) (f : E → F) (r : Result E A × S)
      → Post Q (λ e. R (f e)) r
      → Post Q R (relabel f r)
  relabel-Post Q R f (ok a, s) h = h
  relabel-Post Q R f (err e, s) h = h

  pub Hoare-wrap_step :
      {P : S → Type 0} {Q : A → S → Type 0} {R : F → S → Type 0} (f : E → F) (m : Step S E A)
      → Hoare P m Q (λ e. R (f e))
      → Hoare P (wrap_step f m) Q R
  unfolding wrap_step
  Hoare-wrap_step {Q} {R} f m h = record { at = λ s p. relabel-Post Q R f (m s) (h.at s p) }
