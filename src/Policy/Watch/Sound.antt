-- ===== src/Policy/Watch/Sound.antt =====
-- The policy set that the manager of internal/policy/manager.go holds is well formed, after any run of
-- the watch of internal/policy/watch.go.
use kube_workload_lm.Base.{
  ℕ, String, ◌==◌, not, ◌&&◌, Option, none, some, List, [], ◌∷◌, Result, ok, err, ◌≡◌, refl, subst,
  arith, wrap, Bool-cases, inl, inr, All,
}
use kube_workload_lm.Base.Dict.{lookup}
use kube_workload_lm.Base.Stream.{Turn, cancelled, closed, arrived}
use kube_workload_lm.Schedule.Calendar.{Zones}
use kube_workload_lm.Workload.Gateway.{RawType}
use kube_workload_lm.Policy.Types.{Matchers, PolicySet}
use kube_workload_lm.Policy.Raw.{RawPolicySet}
use kube_workload_lm.Policy.Compile.{compile_policy_set}
use kube_workload_lm.Policy.Compile.Sound.{IsSound, IsDistinct, compile_policy_set-IsSound}
use kube_workload_lm.Policy.Nulls.{Nodes, Answer, reject_nulls}
use kube_workload_lm.Policy.Decode.{
  Yaml, DecodeError, rejected, decode, decode_one, decode_document, after_nulls, compile_decoded,
}
use kube_workload_lm.Policy.Manager.{Manager}
use kube_workload_lm.Policy.Watch.{
  PolicyEvent, PolicyObject, config_map, other_object, RawPolicyEvent, ConfigMapWatcher, Forwarded,
  forward_policy,
}
use kube_workload_lm.Policy.Watch.LastGood.{
  is_update, good, replaced, good_text, accepted_from, accepted, is_fatal, replay, Held,
  forward_policy-replay,
}

module _ (M : Matchers) (Z : Zones) (Y : Yaml) where
  abbrev pub IsSoundSet : Option (PolicySet M) → Type 0
  IsSoundSet none = Unit
  IsSoundSet (some set) = All (IsSound M Z) set.policies × IsDistinct M Z [] set.policies

  wrap-IsSoundSet :
      (raw : RawPolicySet) (r : Result _ (PolicySet M))
      → compile_policy_set M Z raw ≡ r
      → IsSoundSet (good (some (wrap rejected r)))
  wrap-IsSoundSet raw (ok set) h = compile_policy_set-IsSound M Z raw set h
  wrap-IsSoundSet raw (err e) h = tt

  compile_decoded-IsSoundSet :
      (r : Result DecodeError RawPolicySet) → IsSoundSet (good (some (compile_decoded M Z Y r)))
  compile_decoded-IsSoundSet (ok raw) = wrap-IsSoundSet raw (compile_policy_set M Z raw) refl
  compile_decoded-IsSoundSet (err e) = tt

  after_nulls-IsSoundSet :
      (answer : Answer) (text : String) → IsSoundSet (good (after_nulls M Z Y answer text))
  after_nulls-IsSoundSet none text = tt
  after_nulls-IsSoundSet (some (err e)) text = tt
  after_nulls-IsSoundSet (some (ok a)) text =
      compile_decoded-IsSoundSet (decode_one (Y.decode_raw text) (Y.trailer text))

  document-IsSoundSet :
      (fuel : ℕ) (r : Result DecodeError (Nodes × ℕ)) (text : String)
      → IsSoundSet (good (decode_document M Z Y fuel r text))
  document-IsSoundSet fuel (err e) text = tt
  document-IsSoundSet fuel (ok (nodes, root)) text =
      after_nulls-IsSoundSet (reject_nulls Y.print nodes fuel root "$") text

  decode-IsSoundSet : (fuel : ℕ) (text : String) → IsSoundSet (good (decode M Z Y fuel text))
  unfolding decode
  decode-IsSoundSet fuel text = elim (Bool-cases (Y.is_blank text)) [
    | inl blank ↦ rw blank tt
    | inr given ↦
        rw given (document-IsSoundSet fuel (decode_one (Y.decode_node text) (Y.trailer text)) text)
  ]

module _ (M : Matchers) (Z : Zones) (Y : Yaml) (fuel : ℕ) (F : Type 0)
    (from_object : PolicyObject F → F) (watcher : ConfigMapWatcher) where
  text-IsSoundSet :
      (o : Option String) → IsSoundSet M Z Y (good_text M Z Y fuel F from_object watcher o)
  text-IsSoundSet none = tt
  text-IsSoundSet (some text) = decode-IsSoundSet M Z Y fuel text

  accepted-IsSoundSet :
      (type : RawType) (object : PolicyObject F)
      → IsSoundSet M Z Y (accepted_from M Z Y fuel F from_object watcher type object)
  accepted-IsSoundSet type (other_object f) = tt
  accepted-IsSoundSet type (config_map name data_map) =
      elim (Bool-cases (is_update type && name == watcher.name)) [
        | inl update ↦ rw update (text-IsSoundSet (lookup watcher.data_key data_map))
        | inr other ↦ rw other tt
      ]

  replaced-IsSoundSet :
      (set : Option (PolicySet M)) (manager : Manager M)
      → IsSoundSet M Z Y set
      → IsSoundSet M Z Y manager.current
      → IsSoundSet M Z Y (replaced set manager).current
  replaced-IsSoundSet none manager h k = k
  replaced-IsSoundSet (some set) manager h k = h

  replay-IsSoundSet :
      (turns : List (Turn (RawPolicyEvent F))) (manager : Manager M)
      → IsSoundSet M Z Y manager.current
      → IsSoundSet M Z Y (replay M Z Y fuel F from_object watcher turns manager).current
  replay-IsSoundSet [] manager h = h
  replay-IsSoundSet (cancelled ∷ rest) manager h = h
  replay-IsSoundSet (closed sent ∷ rest) manager h = h
  replay-IsSoundSet (arrived raw sent ∷ rest) manager h =
      let sound =
        replaced-IsSoundSet (accepted M Z Y fuel F from_object watcher raw) manager
          (accepted-IsSoundSet raw.type raw.object) h in
      elim (Bool-cases (sent && not (is_fatal M Z Y fuel F from_object watcher raw))) [
        | inl more ↦ rw more (replay-IsSoundSet rest _ sound)
        | inr last ↦ rw last sound
      ]

  Held-same :
      (manager : Manager M) (r : Forwarded M F) (events : List (PolicyEvent F)) (after : Manager M)
      → Held M Z Y fuel F from_object watcher manager r
      → r ≡ some (events, some after)
      → manager ≡ after
  Held-same manager none events after h e = grind arith
  Held-same manager (some (l, m)) events after h e = grind arith

  -- If the manager holds no policy set, or a well-formed one, then so it does after a run of the
  -- watch, whatever the API server has sent: its policies have different names, and each has a name, a
  -- positive age, a known action for expired workloads, and no negative number of replicas.
  pub forward_policy-IsSoundSet :
      (turns : List (Turn (RawPolicyEvent F))) (manager after : Manager M)
      (events : List (PolicyEvent F))
      → IsSoundSet M Z Y manager.current
      → forward_policy M Z Y fuel from_object watcher turns (some manager)
        ≡ some (events, some after)
      → IsSoundSet M Z Y after.current
  forward_policy-IsSoundSet turns manager after events h e =
      subst (λ m. IsSoundSet M Z Y m.current)
        (Held-same (replay M Z Y fuel F from_object watcher turns manager) _ events after
          (forward_policy-replay M Z Y fuel F from_object watcher turns manager) e)
        (replay-IsSoundSet turns manager h)
