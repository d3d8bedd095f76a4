-- ===== src/Policy/Compile/Sound.antt =====
-- What the compiled policies of internal/policy/validate.go are sure to satisfy.
use kube_workload_lm.Base.{
  ℕ, suc, String, ◌==◌, eq_iff, false, Option, none, some, List, [], ◌∷◌, ok, ◌≡◌, ◌≢◌, ◌⊎◌, refl,
  subst, arith, All, wrap, bind_ok, guard_ok, ok_injective, wrap_ok, given_ok, not, inl,
}
use kube_workload_lm.Base.Int.{ℤ, pos, ◌≤ℤ◌, ◌<ℤ◌}
use kube_workload_lm.Schedule.Calendar.{Zones}
use kube_workload_lm.Schedule.Window.{contains}
use kube_workload_lm.Policy.Types.{Matchers, Lifecycle, Replicas, Policy, PolicySet}
use kube_workload_lm.Policy.Raw.{
  RawLifecycle, RawReplicas, RawPolicy, RawPolicySet, in_policy, duplicate_policy, in_target,
  in_lifecycle, in_replicas, in_schedule, empty_name, unsupported_api_version, unsupported_set_kind,
  no_policies, no_priority,
}
use kube_workload_lm.Policy.Fields.{compile_action, compile_revision, compile_replicas}
use kube_workload_lm.Policy.Compile.{
  compile_max_age, compile_lifecycle, compile_fields, compile_target, compile_schedule,
  compile_policy, compile_policies, raw_policies, compile_policy_set,
}

-- The action is one of the two that the transition knows.
compile_action_known :
    (o : Option String) (action : String)
    → compile_action o ≡ ok action
    → (action ≡ "scale") ⊎ (action ≡ "delete")
unfolding compile_action
compile_action_known none action h = ground arith
compile_action_known (some a) action h =
    ground (arith, eq_iff a "", eq_iff a "scale", eq_iff a "delete")

compile_replicas_natural :
    (o : Option RawReplicas) (r : Replicas)
    → compile_replicas o ≡ ok r
    → (pos 0 ≤ℤ r.scheduled_down) × (pos 0 ≤ℤ r.expired)
unfolding compile_replicas
compile_replicas_natural none r h = grind arith
compile_replicas_natural (some raw) r h = grind arith

module _ (M : Matchers) (Z : Zones) where
  compile_max_age_positive :
      (o : Option String) (age : ℤ) → compile_max_age M Z o ≡ ok age → pos 0 <ℤ age
  unfolding compile_max_age
  compile_max_age_positive none age h = ground arith
  compile_max_age_positive (some text) age h = ground arith

  abbrev IsSoundLifecycle : Lifecycle → Type 0
  IsSoundLifecycle l =
      (pos 0 <ℤ l.max_age) × ((l.expired_action ≡ "scale") ⊎ (l.expired_action ≡ "delete"))

  compile_lifecycle_sound :
      (o : Option RawLifecycle) (l : Lifecycle)
      → compile_lifecycle M Z o ≡ ok l
      → IsSoundLifecycle l
  unfolding compile_lifecycle
  compile_lifecycle_sound none l h =
      subst IsSoundLifecycle (ok_injective _ l h) (ground arith, inl refl)
  compile_lifecycle_sound (some raw) l h =
      let (age, a, h₁) = bind_ok (compile_max_age M Z raw.max_age) _ l h in
      let (revision, r, h₂) = bind_ok (compile_revision raw.revision) _ l h₁ in
      let (action, c, h₃) = bind_ok (compile_action raw.expired_action) _ l h₂ in
      subst IsSoundLifecycle (ok_injective _ l h₃) (
        compile_max_age_positive raw.max_age age a,
        compile_action_known raw.expired_action action c,
      )

  -- The policy has a name, a positive age, a known action, and no negative number of replicas.
  abbrev pub IsSound : Policy M → Type 0
  IsSound p =
      (p.name ≢ "")
      × (pos 0 <ℤ p.lifecycle.max_age)
      × ((p.lifecycle.expired_action ≡ "scale") ⊎ (p.lifecycle.expired_action ≡ "delete"))
      × (pos 0 ≤ℤ p.replicas.scheduled_down)
      × (pos 0 ≤ℤ p.replicas.expired)

  compile_fields-IsSound :
      (raw : RawPolicy) (priority : ℤ) (p : Policy M)
      → raw.name ≢ ""
      → compile_fields M Z raw priority ≡ ok p
      → IsSound p
  unfolding compile_fields
  compile_fields-IsSound raw priority p named h =
      let (target, t, h₁) = bind_ok (wrap in_target (compile_target M Z raw.target)) _ p h in
      let (lifecycle, l, h₂) =
        bind_ok (wrap in_lifecycle (compile_lifecycle M Z raw.lifecycle)) _ p h₁ in
      let (replicas, r, h₃) = bind_ok (wrap in_replicas (compile_replicas raw.replicas)) _ p h₂ in
      let (schedule, s, h₄) =
        bind_ok (wrap in_schedule (compile_schedule M Z raw.schedule)) _ p h₃ in
      let (age, action) =
        compile_lifecycle_sound raw.lifecycle lifecycle (wrap_ok in_lifecycle _ lifecycle l) in
      let (down, expired) =
        compile_replicas_natural raw.replicas replicas (wrap_ok in_replicas _ replicas r) in
      subst IsSound (ok_injective _ p h₄) (named, age, action, down, expired)

  compile_policy-IsSound :
      (raw : RawPolicy) (p : Policy M) → compile_policy M Z raw ≡ ok p → IsSound p
  unfolding compile_policy
  compile_policy-IsSound raw p h =
      let (named, h₁) = guard_ok (raw.name == "") empty_name _ p h in
      let (priority, _, h₂) = given_ok raw.priority no_priority _ p h₁ in
      compile_fields-IsSound raw priority p (ground (arith, eq_iff raw.name "")) h₂

  -- None of the names has been seen, and none stands twice.
  abbrev pub IsDistinct : List String → List (Policy M) → Type 0
  IsDistinct seen [] = Unit
  IsDistinct seen (p ∷ rest) = (contains seen p.name ≡ false) × IsDistinct (p.name ∷ seen) rest

  compile_policies-IsSound :
      (items : List RawPolicy) (index : ℕ) (seen : List String) (l : List (Policy M))
      → compile_policies M Z items index seen ≡ ok l
      → All IsSound l × IsDistinct seen l
  unfolding compile_policies
  compile_policies-IsSound [] index seen l h =
      subst (λ l. All IsSound l × IsDistinct seen l) (ok_injective [] l h) (tt, tt)
  compile_policies-IsSound (raw ∷ rest) index seen l h =
      let (p, c, h₁) = bind_ok (wrap (in_policy index) (compile_policy M Z raw)) _ l h in
      let (fresh, h₂) =
        guard_ok (contains seen p.name) (in_policy index (duplicate_policy p.name)) _ l h₁ in
      let (others, o, h₃) =
        bind_ok (compile_policies M Z rest (suc index) (p.name ∷ seen)) _ l h₂ in
      let (sound, distinct) = compile_policies-IsSound rest (suc index) (p.name ∷ seen) others o in
      subst (λ l. All IsSound l × IsDistinct seen l) (ok_injective (p ∷ others) l h₃)
        ((compile_policy-IsSound raw p (wrap_ok (in_policy index) _ p c), sound), (fresh, distinct))

  -- A policy set that is accepted has policies of different names, each of which has a name, a
  -- positive age, a known action for expired workloads, and no negative number of replicas.
  pub compile_policy_set-IsSound :
      (raw : RawPolicySet) (set : PolicySet M)
      → compile_policy_set M Z raw ≡ ok set
      → All IsSound set.policies × IsDistinct [] set.policies
  unfolding compile_policy_set
  compile_policy_set-IsSound raw set h =
      let (_, h₁) =
        guard_ok (not (raw.api_version == "lifecycle.example.com/v1alpha1"))
          (unsupported_api_version raw.api_version) _ set h in
      let (_, h₂) =
        guard_ok (not (raw.kind == "WorkloadLifecyclePolicySet")) (unsupported_set_kind raw.kind) _
          set h₁ in
      let (items, _, h₃) = given_ok (raw_policies M Z raw.spec) no_policies _ set h₂ in
      let (policies, c, h₄) = bind_ok (compile_policies M Z items 0 []) _ set h₃ in
      subst (λ s. All IsSound s.policies × IsDistinct [] s.policies) (ok_injective _ set h₄)
        (compile_policies-IsSound items 0 [] policies c)
