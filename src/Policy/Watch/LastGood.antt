-- ===== src/Policy/Watch/LastGood.antt =====
-- The manager of internal/policy/manager.go under the watch of internal/policy/watch.go: it holds the
-- last policy set that was accepted, whatever else came, and the set is well formed.
use kube_workload_lm.Base.{
  ℕ, String, ◌==◌, Bool, true, false, not, ◌&&◌, Option, none, some, List, [], ◌∷◌, Result, ok, err,
  ◌≡◌, refl, sym, subst, is_set, if◌then◌else◌, Bool-cases, inl, inr,
}
use kube_workload_lm.Base.Dict.{Dict, lookup}
use kube_workload_lm.Base.Stream.{Turn, cancelled, closed, arrived}
use kube_workload_lm.Schedule.Calendar.{Zones}
use kube_workload_lm.Workload.Gateway.{RawType, added, modified, deleted, other_type, error}
use kube_workload_lm.Policy.Types.{Matchers, PolicySet}
use kube_workload_lm.Policy.Decode.{Yaml, DecodeError, decode}
use kube_workload_lm.Policy.Manager.{Manager, reloaded, reload}
use kube_workload_lm.Policy.Watch.{
  PolicyEventType, event_reloaded, PolicyEvent, PolicyObject, config_map, other_object,
  RawPolicyEvent, ConfigMapWatcher, Converted, after_reload, convert_payload, convert_type, convert,
  Forwarded, deliver, pass_on, forward_policy,
}

abbrev pub is_update : RawType → Bool
is_update added = true
is_update modified = true
is_update other = false

abbrev pub is_known : RawType → Bool
is_known deleted = true
is_known type = is_update type

abbrev pub is_reloaded : PolicyEventType → Bool
is_reloaded event_reloaded = true
is_reloaded other = false

abbrev pub good : {M : Matchers} → Option (Result DecodeError (PolicySet M)) → Option (PolicySet M)
good none = none
good (some (ok set)) = some set
good (some (err e)) = none

abbrev pub replaced : {M : Matchers} → Option (PolicySet M) → Manager M → Manager M
replaced none manager = manager
replaced (some set) manager = record { current = some set }

-- What a conversion that ended must be, by the set it brings and whether it is fatal.
abbrev IsConverted :
    {M : Matchers} {F : Type 0} → Option (PolicySet M) → Bool → Manager M → Converted M F → Type 0
IsConverted set fatal manager none = Unit
IsConverted set fatal manager (some ((event, terminal), after)) =
    (after ≡ some (replaced set manager))
    × (terminal ≡ fatal)
    × (is_reloaded event.type ≡ is_set set)

module _ (M : Matchers) (Z : Zones) (Y : Yaml) (fuel : ℕ) (F : Type 0)
    (from_object : PolicyObject F → F) (watcher : ConfigMapWatcher) where
  abbrev pub good_text : Option String → Option (PolicySet M)
  good_text none = none
  good_text (some text) = good (decode M Z Y fuel text)

  -- The policy set that an event of the API server brings: a new text of the watched ConfigMap, which
  -- is decoded and compiled without an error.
  abbrev pub accepted_from : RawType → PolicyObject F → Option (PolicySet M)
  accepted_from type (other_object f) = none
  accepted_from type (config_map name data_map) =
      if is_update type && name == watcher.name
      then good_text (lookup watcher.data_key data_map)
      else none

  -- After which the watch ends: an error, an object of another type, an event of an unknown type.
  abbrev pub is_fatal_for : RawType → PolicyObject F → Bool
  is_fatal_for error object = true
  is_fatal_for type (other_object f) = true
  is_fatal_for type (config_map name data_map) = name == watcher.name && not (is_known type)

  abbrev pub accepted : RawPolicyEvent F → Option (PolicySet M)
  accepted raw = accepted_from raw.type raw.object

  abbrev pub is_fatal : RawPolicyEvent F → Bool
  is_fatal raw = is_fatal_for raw.type raw.object

  decoded-IsConverted :
      (r : Option (Result DecodeError (PolicySet M))) (manager : Manager M)
      → IsConverted {M = M} {F = F}
          (good r)
          false
          manager
          (after_reload M Z Y fuel from_object watcher (reloaded M r manager))
  decoded-IsConverted none manager = tt
  decoded-IsConverted (some (ok set)) manager = (refl, refl, refl)
  decoded-IsConverted (some (err e)) manager = (refl, refl, refl)

  payload-IsConverted :
      (o : Option String) (manager : Manager M)
      → IsConverted {M = M} {F = F}
          (good_text o)
          false
          manager
          (convert_payload M Z Y fuel from_object watcher o (some manager))
  unfolding reload
  payload-IsConverted none manager = (refl, refl, refl)
  payload-IsConverted (some text) manager = decoded-IsConverted (decode M Z Y fuel text) manager

  object-IsConverted :
      (type : RawType) (name : String) (data_map : Dict String) (manager : Manager M)
      → IsConverted {M = M} {F = F}
          (accepted_from type (config_map name data_map))
          (is_fatal_for type (config_map name data_map))
          manager
          (convert_type M Z Y fuel from_object watcher type
            (config_map name data_map)
            (some manager))
  object-IsConverted added name data_map manager = elim (Bool-cases (name == watcher.name)) [
    | inl own ↦ rw own (payload-IsConverted (lookup watcher.data_key data_map) manager)
    | inr foreign ↦ rw foreign (refl, refl, refl)
  ]
  object-IsConverted modified name data_map manager = elim (Bool-cases (name == watcher.name)) [
    | inl own ↦ rw own (payload-IsConverted (lookup watcher.data_key data_map) manager)
    | inr foreign ↦ rw foreign (refl, refl, refl)
  ]
  object-IsConverted deleted name data_map manager = elim (Bool-cases (name == watcher.name)) [
    | inl own ↦ rw own (refl, refl, refl)
    | inr foreign ↦ rw foreign (refl, refl, refl)
  ]
  object-IsConverted other_type name data_map manager = elim (Bool-cases (name == watcher.name)) [
    | inl own ↦ rw own (refl, refl, refl)
    | inr foreign ↦ rw foreign (refl, refl, refl)
  ]
  object-IsConverted error name data_map manager = (refl, refl, refl)

  typed-IsConverted :
      (type : RawType) (object : PolicyObject F) (manager : Manager M)
      → IsConverted {M = M} {F = F}
          (accepted_from type object)
          (is_fatal_for type object)
          manager
          (convert_type M Z Y fuel from_object watcher type object (some manager))
  typed-IsConverted type (config_map name data_map) manager =
      object-IsConverted type name data_map manager
  typed-IsConverted added (other_object f) manager = (refl, refl, refl)
  typed-IsConverted modified (other_object f) manager = (refl, refl, refl)
  typed-IsConverted deleted (other_object f) manager = (refl, refl, refl)
  typed-IsConverted other_type (other_object f) manager = (refl, refl, refl)
  typed-IsConverted error (other_object f) manager = (refl, refl, refl)

  convert-IsConverted :
      (raw : RawPolicyEvent F) (manager : Manager M)
      → IsConverted {M = M} {F = F}
          (accepted raw)
          (is_fatal raw)
          manager
          (convert M Z Y fuel from_object watcher raw (some manager))
  unfolding convert
  convert-IsConverted raw manager = typed-IsConverted raw.type raw.object manager

  -- The manager after a run of the watch: the sets that were accepted, one after the other, until the
  -- context ends, the API server closes the watch, or a fatal event has come.
  abbrev pub replay : List (Turn (RawPolicyEvent F)) → Manager M → Manager M
  replay [] manager = manager
  replay (cancelled ∷ rest) manager = manager
  replay (closed sent ∷ rest) manager = manager
  replay (arrived raw sent ∷ rest) manager =
      let after = replaced (accepted raw) manager in
      let later = replay rest after in if sent && not (is_fatal raw) then later else after

  abbrev pub Held : Manager M → Forwarded M F → Type 0
  Held manager none = Unit
  Held manager (some (events, after)) = after ≡ some manager

  deliver-Held :
      (manager : Manager M) (event : PolicyEvent F) (r : Forwarded M F)
      → Held manager r
      → Held manager (deliver M Z Y fuel from_object watcher event r)
  deliver-Held manager event none h = tt
  deliver-Held manager event (some r) h = h

  pass_on-Held :
      (set : Option (PolicySet M)) (fatal sent : Bool) (manager later : Manager M)
      (c : Converted M F) (rest : Option (Manager M) → Forwarded M F)
      → IsConverted set fatal manager c
      → Held later (rest (some (replaced set manager)))
      → Held
          (if sent && not fatal then later else replaced set manager)
          (pass_on M Z Y fuel from_object watcher c sent rest)
  pass_on-Held set fatal sent manager later none rest h k = tt
  pass_on-Held set fatal false manager later (some ((event, terminal), after)) rest h k = h.0
  pass_on-Held set fatal true manager later (some ((event, true), after)) rest h k =
      subst (λ b. after ≡ some (if not b then later else replaced set manager)) h.1 h.0
  pass_on-Held set fatal true manager later (some ((event, false), after)) rest h k =
      deliver-Held _ event (rest after) (
        subst (λ o. Held (if not fatal then later else replaced set manager) (rest o)) (sym h.0)
          (subst
            (λ b.
              Held (if not b then later else replaced set manager)
                (rest (some (replaced set manager))))
            h.1 k))

  -- If its searches for nulls have ended, a watch leaves the manager with the policy set that was
  -- accepted last before it ended, or with the one from before it: what was rejected changes nothing.
  pub forward_policy-replay :
      (turns : List (Turn (RawPolicyEvent F))) (manager : Manager M)
      → Held
          (replay turns manager)
          (forward_policy M Z Y fuel from_object watcher turns (some manager))
  unfolding forward_policy
  forward_policy-replay [] manager = refl
  forward_policy-replay (cancelled ∷ rest) manager = refl
  forward_policy-replay (closed true ∷ rest) manager = refl
  forward_policy-replay (closed false ∷ rest) manager = refl
  forward_policy-replay (arrived raw sent ∷ rest) manager =
      pass_on-Held (accepted raw) (is_fatal raw) sent manager _ _ _
        (convert-IsConverted raw manager)
        (forward_policy-replay rest (replaced (accepted raw) manager))
