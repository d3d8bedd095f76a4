-- ===== src/State/Store/Rules.antt =====
-- Reasoning about the store of internal/state/configmap.go: one rule for each call, and one for the
-- loop of `retry`, whose invariant knows how many attempts are left.
use kube_workload_lm.Base.{
  ℕ, String, Bool, true, false, List, ◌∷◌, Result, ok, err, ◌≡◌, refl, Bool-cases, inl, inr,
  if◌then◌else◌, arith, subst,
}
use kube_workload_lm.Base.Int.{ℤ, pos, ltb_ℤ}
use kube_workload_lm.Base.Step.{and_then, Post, Hoare, Hoare-and_then, of_result, Hoare-of_result}
use kube_workload_lm.State.Capacity.{Capacity}
use kube_workload_lm.State.Store.{
  ConfigMapApi, ConfigMap, StoreMachine, StoreStep, StoreError, api, context_done,
  capacity_exceeded, ApiCall, got, get_refused, created, updated, answered_write, answered_unit,
  answered_got, found_or, looked_up, get_config_map, create_config_map, update_config_map,
  check_context, sleep_context, observe_capacity, capacity_of, notify, within_capacity,
}

module _ (C : ConfigMapApi) where
  abbrev pub Holds : Type 1
  Holds = StoreMachine C → Type 0

  answered_unit-Post :
      (Q : Unit {0} → Holds) (R : StoreError C.Failure → Holds)
      (r : Result C.Failure (Unit {0}) × C.World) (calls : List (ApiCall C.Meta))
      → Q tt (record { world = r.1; calls = calls })
      → ((f : C.Failure) → R (context_done f) (record { world = r.1; calls = calls }))
      → Post Q R (answered_unit C r calls)
  answered_unit-Post Q R (ok a, w) calls hq hr = hq
  answered_unit-Post Q R (err f, w) calls hq hr = hr f

  answered_write-Post :
      (Q : ConfigMap C.Meta → Holds) (R : StoreError C.Failure → Holds)
      (call : Bool → ApiCall C.Meta) (r : Result C.Failure (ConfigMap C.Meta) × C.World)
      (calls : List (ApiCall C.Meta))
      → ((m : ConfigMap C.Meta)
          → r.0 ≡ ok m
          → Q m (record { world = r.1; calls = call true ∷ calls }))
      → ((f : C.Failure)
          → r.0 ≡ err f
          → R (api f) (record { world = r.1; calls = call false ∷ calls }))
      → Post Q R (answered_write C call r calls)
  answered_write-Post Q R call (ok m, w) calls hq hr = hq m refl
  answered_write-Post Q R call (err f, w) calls hq hr = hr f refl

  module _ {P : Holds} {R : StoreError C.Failure → Holds} where
    pub Hoare-check_context :
        {Q : Unit {0} → Holds}
        → ((s : StoreMachine C) → P s → Q tt (record s { world = (C.context_error s.world).1 }))
        → ((f : C.Failure) (s : StoreMachine C)
            → P s
            → R (context_done f) (record s { world = (C.context_error s.world).1 }))
        → Hoare P (check_context C) Q R
    unfolding check_context
    Hoare-check_context {Q} hq hr = record {
      at = λ s p. answered_unit-Post Q R (C.context_error s.world) s.calls (hq s p) (λ f. hr f s p);
    }

    pub Hoare-sleep_context :
        {Q : Unit {0} → Holds} (delay : ℤ)
        → ((s : StoreMachine C) → P s → Q tt s)
        → ((s : StoreMachine C) → P s → Q tt (record s { world = (C.await delay s.world).1 }))
        → ((f : C.Failure) (s : StoreMachine C)
            → P s
            → R (context_done f) (record s { world = (C.await delay s.world).1 }))
        → Hoare P (sleep_context C delay) Q R
    unfolding sleep_context
    Hoare-sleep_context {Q} delay h hq hr = record {
      at = λ s p. elim (Bool-cases (ltb_ℤ (pos 0) delay)) [
        | inl yes_wait ↦
            rw yes_wait
              (answered_unit-Post Q R (C.await delay s.world) s.calls (hq s p) (λ f. hr f s p))
        | inr at_once ↦ rw at_once (h s p)
      ];
    }

    pub Hoare-observe_capacity :
        {Q : Capacity → Holds} (m : ConfigMap C.Meta)
        → ((s : StoreMachine C)
            → P s
            → Q (capacity_of m) (record s { world = notify C C.observer (capacity_of m) s.world }))
        → Hoare P (observe_capacity C m) Q R
    unfolding observe_capacity
    Hoare-observe_capacity m h = record { at = h }

    pub Hoare-create_config_map :
        {Q : ConfigMap C.Meta → Holds} (m : ConfigMap C.Meta)
        → ((a : ConfigMap C.Meta) (s : StoreMachine C)
            → P s
            → (C.create m s.world).0 ≡ ok a
            → Q a (record { world = (C.create m s.world).1; calls = created m true ∷ s.calls }))
        → ((f : C.Failure) (s : StoreMachine C)
            → P s
            → (C.create m s.world).0 ≡ err f
            → R
                (api f)
                (record { world = (C.create m s.world).1; calls = created m false ∷ s.calls }))
        → Hoare P (create_config_map C m) Q R
    unfolding create_config_map
    Hoare-create_config_map {Q} m hq hr = record {
      at = λ s p.
          answered_write-Post Q R (created m) (C.create m s.world) s.calls (λ a. hq a s p)
            (λ f. hr f s p);
    }

    pub Hoare-update_config_map :
        {Q : ConfigMap C.Meta → Holds} (m : ConfigMap C.Meta)
        → ((a : ConfigMap C.Meta) (s : StoreMachine C)
            → P s
            → (C.update m s.world).0 ≡ ok a
            → Q a (record { world = (C.update m s.world).1; calls = updated m true ∷ s.calls }))
        → ((f : C.Failure) (s : StoreMachine C)
            → P s
            → (C.update m s.world).0 ≡ err f
            → R
                (api f)
                (record { world = (C.update m s.world).1; calls = updated m false ∷ s.calls }))
        → Hoare P (update_config_map C m) Q R
    unfolding update_config_map
    Hoare-update_config_map {Q} m hq hr = record {
      at = λ s p.
          answered_write-Post Q R (updated m) (C.update m s.world) s.calls (λ a. hq a s p)
            (λ f. hr f s p);
    }

  module _ {A : Type 0} {N : Holds} {Q : A → Holds} {R : StoreError C.Failure → Holds} where
    absent-Post :
        (b : Bool) (f : C.Failure) (missing : StoreStep C A) (s : StoreMachine C)
        → (b ≡ true → N s)
        → (b ≡ false → R (api f) s)
        → Hoare N missing Q R
        → Post Q R (if b then missing s else (err (api f), s))
    absent-Post true f missing s hn hr h = h.at s (hn refl)
    absent-Post false f missing s hn hr h = hr refl

    found_or-Post :
        {G : ConfigMap C.Meta → Holds} (found : ConfigMap C.Meta → StoreStep C A)
        (missing : StoreStep C A) (r : Result C.Failure (ConfigMap C.Meta) × C.World)
        (calls : List (ApiCall C.Meta))
        → ((m : ConfigMap C.Meta)
            → r.0 ≡ ok m
            → G m (record { world = r.1; calls = got m ∷ calls }))
        → ((f : C.Failure)
            → r.0 ≡ err f
            → C.is_not_found f ≡ true
            → N (record { world = r.1; calls = get_refused ∷ calls }))
        → ((f : C.Failure)
            → r.0 ≡ err f
            → C.is_not_found f ≡ false
            → R (api f) (record { world = r.1; calls = get_refused ∷ calls }))
        → ((m : ConfigMap C.Meta) → Hoare (G m) (found m) Q R)
        → Hoare N missing Q R
        → Post Q R (found_or C (answered_got C r calls) found missing)
    found_or-Post found missing (ok m, w) calls hg hn hr k h = (k m).at _ (hg m refl)
    found_or-Post found missing (err f, w) calls hg hn hr k h =
        absent-Post (C.is_not_found f) f missing _ (hn f refl) (hr f refl) h

    pub Hoare-looked_up :
        {P : Holds} {G : ConfigMap C.Meta → Holds} (name : String)
        (found : ConfigMap C.Meta → StoreStep C A) (missing : StoreStep C A)
        → ((m : ConfigMap C.Meta) (s : StoreMachine C)
            → P s
            → (C.get name s.world).0 ≡ ok m
            → G m (record { world = (C.get name s.world).1; calls = got m ∷ s.calls }))
        → ((f : C.Failure) (s : StoreMachine C)
            → P s
            → (C.get name s.world).0 ≡ err f
            → C.is_not_found f ≡ true
            → N (record { world = (C.get name s.world).1; calls = get_refused ∷ s.calls }))
        → ((f : C.Failure) (s : StoreMachine C)
            → P s
            → (C.get name s.world).0 ≡ err f
            → C.is_not_found f ≡ false
            → R (api f) (record { world = (C.get name s.world).1; calls = get_refused ∷ s.calls }))
        → ((m : ConfigMap C.Meta) → Hoare (G m) (found m) Q R)
        → Hoare N missing Q R
        → Hoare P (looked_up C name found missing) Q R
    unfolding looked_up get_config_map
    Hoare-looked_up name found missing hg hn hr k h = record {
      at = λ s p.
          found_or-Post found missing (C.get name s.world) s.calls (λ m. hg m s p) (λ f. hn f s p)
            (λ f. hr f s p) k h;
    }

  within_capacity_ok :
      (m : ConfigMap C.Meta) (a : Unit {0})
      → within_capacity C (capacity_of m) ≡ ok a
      → (capacity_of m).exceeded ≡ false
  within_capacity_ok m a h = ground arith

  refused_err :
      {E : Type 0} (b : Bool) (f e : E)
      → ◌≡◌ {A = Result E (Unit {0})} (if b then err f else ok tt) (err e)
      → f ≡ e
  refused_err true f e h = grind arith
  refused_err false f e h = grind arith

  -- A write after the check of the capacity.
  pub Hoare-within :
      {A : Type 0} {P : Holds} {Q : A → Holds} {R : StoreError C.Failure → Holds}
      (m : ConfigMap C.Meta) (write : StoreStep C A)
      → ((s : StoreMachine C)
          → P s
          → P (record s { world = notify C C.observer (capacity_of m) s.world }))
      → ((total limit : ℕ) (s : StoreMachine C) → P s → R (capacity_exceeded total limit) s)
      → Hoare (λ s. ((capacity_of m).exceeded ≡ false) × P s) write Q R
      → Hoare P
          (and_then
            (observe_capacity C m)
            λ c. and_then (of_result (within_capacity C c)) λ _. write)
          Q
          R
  Hoare-within {P} {R} m write observed hr h =
      Hoare-and_then {Q = λ c s. (c ≡ capacity_of m) × P s} _ _
        (Hoare-observe_capacity m λ s p. (refl, observed s p))
        λ c.
          Hoare-and_then _ _
            (Hoare-of_result {Q = λ _ s. ((capacity_of m).exceeded ≡ false) × P s} _
              (λ a e s p.
                (within_capacity_ok m a (subst (λ c. within_capacity C c ≡ ok a) p.0 e), p.1))
              (λ e h s p.
                subst (λ e. R e s) (refused_err c.exceeded _ e h)
                  (hr c.total_bytes c.limit_bytes s p.1)))
            λ _. h
