-- ===== src/Controller/Effects/Rules.antt =====
-- Reasoning about the calls of a transition: what holds of the log before an action, after a
-- success, and after a failure, with one rule for each way to build an action.
use kube_workload_lm.Base.{
  String, Bool, true, false, Option, none, some, List, ◌∷◌, Result, ok, err, ◌≡◌, refl,
  if◌then◌else◌,
}
use kube_workload_lm.Base.Int.{ℤ}
use kube_workload_lm.Workload.{Workload}
use kube_workload_lm.Workload.Hpa.{HpaError, rejection}
use kube_workload_lm.State.Types.{Document}
use kube_workload_lm.Controller.Effects.{
  Collaborators, Call, loaded, load_refused, saved, scale_read, scaled, deleted, TransitionError,
  Machine, Action, pure, raise, lift, answered, continue, relabel, map_error, ◌>>=◌, load_document,
  save_document, read_scale, update_scale, delete_workload, read_clock, refuse, admit,
}

module _ {C : Collaborators} {A : Type 0} where
  abbrev pub After :
      (A → List Call → Type 0)
      → (List Call → Type 0)
      → Result (TransitionError C.Failure) A × Machine C
      → Type 0
  After Q E (ok a, s) = Q a s.calls
  After Q E (err e, s) = E s.calls

  pub record Triple (P : List Call → Type 0) (m : Action C A) (Q : A → List Call → Type 0)
      (E : List Call → Type 0) : Type 0 where
    pub at : (s : Machine C) → P s.calls → After Q E (m s)

module _ (C : Collaborators) {A : Type 0} (Q : A → List Call → Type 0)
    (E : List Call → Type 0) where
  lift-After :
      {F : Type 0} (f : F → TransitionError C.Failure) (r : Result F A) (s : Machine C)
      → ((a : A) → r ≡ ok a → Q a s.calls)
      → E s.calls
      → After Q E (lift f r s)
  lift-After f (ok a) s hq he = hq a refl
  lift-After f (err e) s hq he = he

  answered-After :
      (good : A → Call) (bad : Call) (f : C.Failure → TransitionError C.Failure)
      (r : Result C.Failure A × C.World) (l : List Call)
      → ((a : A) → r.0 ≡ ok a → Q a (good a ∷ l))
      → E (bad ∷ l)
      → After Q E (answered {C = C} good bad f r l)
  answered-After good bad f (ok a, w) l hq he = hq a refl
  answered-After good bad f (err e, w) l hq he = he

  relabel-After :
      (f : TransitionError C.Failure → TransitionError C.Failure)
      (r : Result (TransitionError C.Failure) A × Machine C)
      → After Q E r
      → After Q E (relabel f r)
  relabel-After f (ok a, s) h = h
  relabel-After f (err e, s) h = h

  continue-After :
      {B : Type 0} (R : B → List Call → Type 0)
      (r : Result (TransitionError C.Failure) A × Machine C) (f : A → Action C B)
      → After Q E r
      → ((a : A) → Triple (Q a) (f a) R E)
      → After R E (continue r f)
  continue-After R (ok a, s) f h k = (k a).at s h
  continue-After R (err e, s) f h k = h

module _ {C : Collaborators} {A : Type 0} {P E : List Call → Type 0}
    {Q : A → List Call → Type 0} where
  pub Triple-pure : (a : A) → ((l : List Call) → P l → Q a l) → Triple {C = C} P (pure a) Q E
  Triple-pure a h = record { at = λ s p. h s.calls p }

  pub Triple-raise :
      (e : TransitionError C.Failure)
      → ((l : List Call) → P l → E l)
      → Triple {C = C} P (raise {A = A} e) Q E
  Triple-raise e h = record { at = λ s p. h s.calls p }

  pub Triple-lift :
      {F : Type 0} (f : F → TransitionError C.Failure) (r : Result F A)
      → ((a : A) → r ≡ ok a → (l : List Call) → P l → Q a l)
      → ((l : List Call) → P l → E l)
      → Triple {C = C} P (lift f r) Q E
  Triple-lift f r hq he = record {
    at = λ s p. lift-After C Q E f r s (λ a e. hq a e s.calls p) (he s.calls p);
  }

module _ {C : Collaborators} {A B : Type 0} {P E : List Call → Type 0} {Q : A → List Call → Type 0}
    {R : B → List Call → Type 0} where
  pub Triple-bind :
      (m : Action C A) (f : A → Action C B)
      → Triple P m Q E
      → ((a : A) → Triple (Q a) (f a) R E)
      → Triple P (m >>= f) R E
  unfolding ◌>>=◌
  Triple-bind m f h k = record { at = λ s p. continue-After C Q E R (m s) f (h.at s p) k }

module _ (C : Collaborators) {P E : List Call → Type 0} where
  pub Triple-save_document :
      {Q : Unit {0} → List Call → Type 0} (f : C.Failure → TransitionError C.Failure) (d : Document)
      → ((l : List Call) → P l → Q tt (saved d true ∷ l))
      → ((l : List Call) → P l → E (saved d false ∷ l))
      → Triple P (save_document C f d) Q E
  unfolding save_document
  Triple-save_document {Q} f d hq he = record {
    at = λ s p.
        answered-After C Q E _ _ f (C.save d s.world) s.calls (λ a e. hq s.calls p) (he s.calls p);
  }

  pub Triple-load_document :
      {Q : Document → List Call → Type 0}
      → ((d : Document) (l : List Call) → P l → Q d (loaded d ∷ l))
      → ((l : List Call) → P l → E (load_refused ∷ l))
      → Triple P (load_document C) Q E
  unfolding load_document
  Triple-load_document {Q} hq he = record {
    at = λ s p.
        answered-After C Q E _ _ _ (C.load s.world) s.calls (λ a e. hq a s.calls p) (he s.calls p);
  }

  -- The rest may use how `Read` answered.
  pub Triple-read_scale :
      {Q : Workload → List Call → Type 0} (current : Workload)
      → ((live : Workload) (w : C.World)
          → (C.read current w).0 ≡ ok live
          → (l : List Call) → P l
          → Q live (scale_read true ∷ l))
      → ((l : List Call) → P l → E (scale_read false ∷ l))
      → Triple P (read_scale C current) Q E
  unfolding read_scale
  Triple-read_scale {Q} current hq he = record {
    at = λ s p.
        answered-After C Q E _ _ _ (C.read current s.world) s.calls
          (λ live e. hq live s.world e s.calls p) (he s.calls p);
  }

  pub Triple-update_scale :
      {Q : Unit {0} → List Call → Type 0} (w : Workload) (n : ℤ) (reason : String)
      → ((l : List Call) → P l → Q tt (scaled w n true ∷ l))
      → ((l : List Call) → P l → E (scaled w n false ∷ l))
      → Triple P (update_scale C w n reason) Q E
  unfolding update_scale
  Triple-update_scale {Q} w n reason hq he = record {
    at = λ s p.
        answered-After C Q E _ _ _ (C.update w n s.world) s.calls (λ a e. hq s.calls p)
          (he s.calls p);
  }

  pub Triple-delete_workload :
      {Q : Unit {0} → List Call → Type 0} (w : Workload)
      → ((l : List Call) → P l → Q tt (deleted w true ∷ l))
      → ((l : List Call) → P l → E (deleted w false ∷ l))
      → Triple P (delete_workload C w) Q E
  unfolding delete_workload
  Triple-delete_workload {Q} w hq he = record {
    at = λ s p.
        answered-After C Q E _ _ _ (C.delete w s.world) s.calls (λ a e. hq s.calls p)
          (he s.calls p);
  }

module _ (C : Collaborators) {P E : List Call → Type 0} where
  pub Triple-read_clock : Triple P (read_clock C) (λ _. P) E
  unfolding read_clock
  Triple-read_clock = record { at = λ s p. p }

  refuse-After :
      (o : Option (HpaError C.Failure)) (s : Machine C)
      → P s.calls
      → ((l : List Call) → P l → E l)
      → After {C = C} (λ _. P) E (refuse C o s)
  unfolding refuse
  refuse-After none s p h = p
  refuse-After (some e) s p h = h s.calls p

  pub Triple-admit :
      (current : Workload) → ((l : List Call) → P l → E l) → Triple P (admit C current) (λ _. P) E
  unfolding admit
  Triple-admit current h = record {
    at = λ s p. refuse-After (rejection (C.evaluate current s.world).0) _ p h;
  }

module _ {C : Collaborators} {A : Type 0} {P P' E : List Call → Type 0}
    {Q : A → List Call → Type 0} where
  -- A stronger condition before.
  pub Triple-weaken :
      (m : Action C A) → ((l : List Call) → P' l → P l) → Triple P m Q E → Triple P' m Q E
  Triple-weaken m h t = record { at = λ s p. t.at s (h s.calls p) }

module _ {C : Collaborators} {A : Type 0} {P E : List Call → Type 0}
    {Q : A → List Call → Type 0} where
  -- A fact that does not depend on the log.
  pub Triple-given :
      {X : Type 0} (m : Action C A) → (X → Triple P m Q E) → Triple (λ l. X × P l) m Q E
  Triple-given m h = record { at = λ s p. (h p.0).at s p.1 }

  pub Triple-if :
      (b : Bool) (m n : Action C A)
      → (b ≡ true → Triple P m Q E)
      → (b ≡ false → Triple P n Q E)
      → Triple P (if b then m else n) Q E
  Triple-if true m n hm hn = hm refl
  Triple-if false m n hm hn = hn refl

  pub Triple-map_error :
      (f : TransitionError C.Failure → TransitionError C.Failure) (m : Action C A)
      → Triple P m Q E
      → Triple P (map_error f m) Q E
  unfolding map_error
  Triple-map_error f m t = record { at = λ s p. relabel-After C Q E f (m s) (t.at s p) }
