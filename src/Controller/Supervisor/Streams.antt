-- ===== src/Controller/Supervisor/Streams.antt =====
-- The supervisors of internal/controller/orchestrator.go leave no stream open: what they open they
-- stop before they open another one, and before they return; and they return when the context ends.
use kube_workload_lm.Base.{
  ℕ, suc, ◌+◌, Bool, true, false, List, [], ◌∷◌, ◌++◌, ◌≡◌, refl, sym, ap, subst, arith,
}
use kube_workload_lm.Workload.Gateway.{Event}
use kube_workload_lm.Workload.Hpa.Watch.{HpaEvent}
use kube_workload_lm.Policy.Watch.{PolicyEvent}
use kube_workload_lm.Controller.Supervisor.{
  Act, opened_stream, stopped_stream, asked, reported, observed_policy_event, Phase, starting,
  streaming, pausing, returned, Answer, cancelled, woken, closed, opened, refused, event, Reaction,
  ask, report, restart, ignore, Supervision, Supervisor, reacted, advance_from, advance, supervise,
  new_supervisor, workload_supervision, hpa_supervision, policy_supervision,
}

-- The streams that a phase holds.
abbrev pub held_in : Phase → ℕ
held_in streaming = 1
held_in phase = 0

module _ {F : Type 0} where
  abbrev pub opens : List (Act F) → ℕ
  opens [] = 0
  opens (opened_stream ∷ older) = suc (opens older)
  opens (stopped_stream ∷ older) = opens older
  opens (asked r ∷ older) = opens older
  opens (reported p ∷ older) = opens older
  opens (observed_policy_event e ∷ older) = opens older

  abbrev pub stops : List (Act F) → ℕ
  stops [] = 0
  stops (opened_stream ∷ older) = stops older
  stops (stopped_stream ∷ older) = suc (stops older)
  stops (asked r ∷ older) = stops older
  stops (reported p ∷ older) = stops older
  stops (observed_policy_event e ∷ older) = stops older

  -- Every stream that was opened is stopped, but for the one that is being read.
  abbrev pub IsBalanced : Supervisor F → Type 0
  IsBalanced s = opens s.acts ≡ stops s.acts + held_in s.phase

  -- Acts that open and stop nothing.
  abbrev IsQuiet : List (Act F) → Type 0
  IsQuiet quiet =
      (acts : List (Act F))
      → (opens (quiet ++ acts) ≡ opens acts) × (stops (quiet ++ acts) ≡ stops acts)

-- The goroutine has returned, and every stream is stopped.
abbrev pub IsGone : {F : Type 0} → Supervisor F → Type 0
IsGone s = (s.phase ≡ returned) × (opens s.acts ≡ stops s.acts)

holds_nothing : (a b : ℕ) (p : Phase) → p ≡ returned → a ≡ b + held_in p → a ≡ b
holds_nothing a b p h k = let none_held = ap held_in h in omega arith

module _ {E F : Type 0} (V : Supervision E F) (closing : IsQuiet V.on_closed)
    (noticing : (e : E) → IsQuiet (V.on_event e)) where
  reacted-IsBalanced :
      (reaction : Reaction F) (taken : Bool) (acts : List (Act F))
      → opens acts ≡ stops acts + 1
      → IsBalanced (reacted V reaction taken acts)
  reacted-IsBalanced (ask request) true acts h = h
  reacted-IsBalanced (ask request) false acts h = omega arith
  reacted-IsBalanced (report problem) taken acts h = h
  reacted-IsBalanced (restart problem) taken acts h = omega arith
  reacted-IsBalanced ignore taken acts h = h

  quiet_balance :
      (quiet acts : List (Act F))
      → IsQuiet quiet
      → opens acts ≡ stops acts + 1
      → opens (quiet ++ acts) ≡ stops (quiet ++ acts) + 1
  quiet_balance quiet acts q h = rw (q acts).0 (rw (q acts).1 h)

  advance_from-IsBalanced :
      (phase : Phase) (answer : Answer E F) (acts : List (Act F))
      → opens acts ≡ stops acts + held_in phase
      → IsBalanced (advance_from V phase answer acts)
  advance_from-IsBalanced starting cancelled acts h = h
  advance_from-IsBalanced starting woken acts h = h
  advance_from-IsBalanced starting closed acts h = h
  advance_from-IsBalanced starting opened acts h = omega arith
  advance_from-IsBalanced starting (refused f) acts h = h
  advance_from-IsBalanced starting (event e taken) acts h = h
  advance_from-IsBalanced streaming cancelled acts h = omega arith
  advance_from-IsBalanced streaming woken acts h = h
  advance_from-IsBalanced streaming closed acts h =
      let k = quiet_balance V.on_closed acts closing h in omega arith
  advance_from-IsBalanced streaming opened acts h = h
  advance_from-IsBalanced streaming (refused f) acts h = h
  advance_from-IsBalanced streaming (event e taken) acts h =
      reacted-IsBalanced (V.react e) taken _ (quiet_balance (V.on_event e) acts (noticing e) h)
  advance_from-IsBalanced pausing cancelled acts h = h
  advance_from-IsBalanced pausing woken acts h = h
  advance_from-IsBalanced pausing closed acts h = h
  advance_from-IsBalanced pausing opened acts h = h
  advance_from-IsBalanced pausing (refused f) acts h = h
  advance_from-IsBalanced pausing (event e taken) acts h = h
  advance_from-IsBalanced returned cancelled acts h = h
  advance_from-IsBalanced returned woken acts h = h
  advance_from-IsBalanced returned closed acts h = h
  advance_from-IsBalanced returned opened acts h = h
  advance_from-IsBalanced returned (refused f) acts h = h
  advance_from-IsBalanced returned (event e taken) acts h = h

  answers-IsBalanced :
      (answers : List (Answer E F)) (s : Supervisor F)
      → IsBalanced s
      → IsBalanced (supervise V answers s)
  unfolding supervise advance
  answers-IsBalanced [] s h = h
  answers-IsBalanced (answer ∷ rest) s h =
      answers-IsBalanced rest _ (advance_from-IsBalanced s.phase answer s.acts h)

  stays_returned :
      (answer : Answer E F) (acts : List (Act F))
      → (advance_from V returned answer acts).phase ≡ returned
  stays_returned cancelled acts = refl
  stays_returned woken acts = refl
  stays_returned closed acts = refl
  stays_returned opened acts = refl
  stays_returned (refused f) acts = refl
  stays_returned (event e taken) acts = refl

  supervise_returned :
      (answers : List (Answer E F)) (s : Supervisor F)
      → s.phase ≡ returned
      → (supervise V answers s).phase ≡ returned
  unfolding supervise advance
  supervise_returned [] s h = h
  supervise_returned (answer ∷ rest) s h = supervise_returned rest _ (
      subst (λ p. (advance_from V p answer s.acts).phase ≡ returned) (sym h)
        (stays_returned answer s.acts))

  cancel_returns :
      (phase : Phase) (acts : List (Act F)) → (advance_from V phase cancelled acts).phase ≡ returned
  cancel_returns starting acts = refl
  cancel_returns streaming acts = refl
  cancel_returns pausing acts = refl
  cancel_returns returned acts = refl

  supervise_ends :
      (answers later : List (Answer E F)) (s : Supervisor F)
      → (supervise V (answers ++ (cancelled ∷ later)) s).phase ≡ returned
  unfolding supervise advance
  supervise_ends [] later s = supervise_returned later _ (cancel_returns s.phase s.acts)
  supervise_ends (answer ∷ rest) later s = supervise_ends rest later _

  -- Once the end of the context has been seen, the goroutine has returned, and holds no stream.
  supervise_cancelled :
      (answers later : List (Answer E F))
      → IsGone (supervise V (answers ++ (cancelled ∷ later)) new_supervisor)
  supervise_cancelled answers later =
      let s = supervise V (answers ++ (cancelled ∷ later)) new_supervisor in
      let ended = supervise_ends answers later new_supervisor in
      (
        ended,
        holds_nothing (opens s.acts) (stops s.acts) s.phase ended
            (answers-IsBalanced (answers ++ (cancelled ∷ later)) new_supervisor refl),
      )

-- Whatever answers they get, the supervisors of the workloads, the HPAs and the policies have stopped
-- every stream that they opened, but for the one that they read.
pub supervise-IsBalanced :
    {F : Type 0} (workloads : List (Answer (Event F) F)) (hpas : List (Answer (HpaEvent F) F))
    (policies : List (Answer (PolicyEvent F) F))
    → IsBalanced (supervise workload_supervision workloads new_supervisor)
      × IsBalanced (supervise hpa_supervision hpas new_supervisor)
      × IsBalanced (supervise policy_supervision policies new_supervisor)
unfolding workload_supervision hpa_supervision policy_supervision
supervise-IsBalanced workloads hpas policies = (
  answers-IsBalanced _ (λ acts. (refl, refl)) (λ e acts. (refl, refl)) workloads _ refl,
  answers-IsBalanced _ (λ acts. (refl, refl)) (λ e acts. (refl, refl)) hpas _ refl,
  answers-IsBalanced _ (λ acts. (refl, refl)) (λ e acts. (refl, refl)) policies _ refl,
)

-- As soon as one of the three supervisors has seen the end of the context, wherever it waits, it has
-- returned with every stream stopped, and stays so whatever comes.
pub supervise-IsGone :
    {F : Type 0} (workloads workloads' : List (Answer (Event F) F))
    (hpas hpas' : List (Answer (HpaEvent F) F))
    (policies policies' : List (Answer (PolicyEvent F) F))
    → IsGone (supervise workload_supervision (workloads ++ (cancelled ∷ workloads')) new_supervisor)
      × IsGone (supervise hpa_supervision (hpas ++ (cancelled ∷ hpas')) new_supervisor)
      × IsGone (supervise policy_supervision (policies ++ (cancelled ∷ policies')) new_supervisor)
unfolding workload_supervision hpa_supervision policy_supervision
supervise-IsGone workloads workloads' hpas hpas' policies policies' = (
  supervise_cancelled _ (λ acts. (refl, refl)) (λ e acts. (refl, refl)) workloads workloads',
  supervise_cancelled _ (λ acts. (refl, refl)) (λ e acts. (refl, refl)) hpas hpas',
  supervise_cancelled _ (λ acts. (refl, refl)) (λ e acts. (refl, refl)) policies policies',
)
