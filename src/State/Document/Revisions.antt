-- ===== src/State/Document/Revisions.antt =====
-- What `selectContainers` of internal/lifecycle/revision.go selects can be stored:
-- `validateWorkloadState` of internal/state/document.go accepts it.
use kube_workload_lm.Base.{
  String, ◌==◌, eq_iff, ==_of_ne, Bool, true, false, not, ◌&&◌, ◌||◌, Option, none, some, List, [],
  ◌∷◌, ok, ◌≡◌, ◌≢◌, refl, sym, subst, arith, is_empty, is_set, bind_ok, guard_ok, given_ok,
  ok_injective, fail_if, str_leb, str_leb_antisymm, IsBelow, IsAscending, sort_strings-IsAscending,
  ◌⊎◌, ◌∙◌, if◌then◌else◌, inl, inr,
}
use kube_workload_lm.Base.Dict.{Dict, lookup, insert, lookup-insert}
use kube_workload_lm.Workload.{Container}
use kube_workload_lm.Lifecycle.Revision.{
  Selected, empty_container, duplicate_container, duplicate_tracked, untracked, no_containers,
  empty_tracking, index_containers, pick, repeats, select_containers, tracked_names, named_nothing,
}
use kube_workload_lm.State.Document.{validate_containers}

-- The containers stand under their names, and have a name and an image.
abbrev IsIndexed : Dict Container → Type 0
IsIndexed available =
    (name : String) (c : Container)
    → lookup name available ≡ some c
    → (c.name ≡ name) × (c.name ≢ "") × (c.image ≢ "")

found_either :
    (b : Bool) (o : Option Container) (c d : Container)
    → (if b then some c else o) ≡ some d
    → ((b ≡ true) × (c ≡ d)) ⊎ (o ≡ some d)
found_either true o c d h = inl (refl, ground arith)
found_either false o c d h = inr h

insert-IsIndexed :
    (available : Dict Container) (c : Container)
    → c.name ≢ ""
    → c.image ≢ ""
    → IsIndexed available
    → IsIndexed (insert c.name c available)
insert-IsIndexed available c named imaged indexed name d h =
    elim (found_either (c.name == name) (lookup name available) c d
      (sym (lookup-insert c.name name c available) ∙ h)) [
        | inl (hit, same) ↦
            subst (λ d. (d.name ≡ name) × (d.name ≢ "") × (d.image ≢ "")) same
              ((eq_iff c.name name).0 hit, named, imaged)
        | inr other ↦ indexed name d other
      ]

nothing-IsIndexed : IsIndexed []
unfolding lookup
nothing-IsIndexed name c h = ground arith

index_containers-IsIndexed :
    (l : List Container) (available result : Dict Container)
    → IsIndexed available
    → index_containers l available ≡ ok result
    → IsIndexed result
unfolding index_containers
index_containers-IsIndexed [] available result indexed h =
    subst IsIndexed (ok_injective available result h) indexed
index_containers-IsIndexed (c ∷ rest) available result indexed h =
    let (full, h₁) = guard_ok (c.name == "" || c.image == "") empty_container _ result h in
    let (fresh, h₂) =
      guard_ok (is_set (lookup c.name available)) (duplicate_container c.name) _ result h₁ in
    index_containers-IsIndexed rest (insert c.name c available) result
      (insert-IsIndexed available c (ground (arith, eq_iff c.name ""))
        (ground (arith, eq_iff c.image "")) indexed)
      h₂

abbrev or_none : Option String → String
or_none none = ""
or_none (some before) = before

not_above :
    (before : Option String) (name : String) (rest : List String)
    → repeats before name ≡ false
    → IsBelow before (name ∷ rest)
    → (not (or_none before == "") && str_leb name (or_none before)) ≡ false
not_above none name rest h below = ground (arith, eq_iff "" "")
not_above (some b) name rest h below = ground (arith, eq_iff b name, str_leb_antisymm b name)

valid_step :
    (c : Container) (before : String) (rest : List Container)
    → c.name ≢ ""
    → c.image ≢ ""
    → (not (before == "") && str_leb c.name before) ≡ false
    → validate_containers rest c.name ≡ ok tt
    → validate_containers (c ∷ rest) before ≡ ok tt
unfolding validate_containers
valid_step c before rest named imaged above h =
    rw (==_of_ne c.name "" named, ==_of_ne c.image "" imaged, above) h

pick_valid :
    (available : Dict Container) (before : Option String) (names : List String)
    (cs : List Container)
    → IsIndexed available
    → IsBelow before names
    → IsAscending names
    → pick available before names ≡ ok cs
    → validate_containers cs (or_none before) ≡ ok tt
unfolding pick validate_containers
pick_valid available before [] cs indexed below asc h =
    subst (λ l. validate_containers l (or_none before) ≡ ok tt) (ok_injective [] cs h) refl
pick_valid available before (name ∷ rest) cs indexed below asc h =
    let (once, h₁) = guard_ok (repeats before name) (duplicate_tracked name) _ cs h in
    let (c, found, h₂) = given_ok (lookup name available) (untracked name) _ cs h₁ in
    let (others, o, h₃) = bind_ok (pick available (some name) rest) _ cs h₂ in
    let (same, named, imaged) = indexed name c found in
    let later = pick_valid available (some name) rest others indexed asc.0 asc.1 o in
    subst (λ l. validate_containers l (or_none before) ≡ ok tt) (ok_injective (c ∷ others) cs h₃)
      (valid_step c (or_none before) others named imaged
        (subst (λ n. (not (or_none before == "") && str_leb n (or_none before)) ≡ false) (sym same)
          (not_above before name rest once below))
        (subst (λ n. validate_containers others n ≡ ok tt) (sym same) later))

tracked_names-IsAscending :
    (available : Dict Container) (tracked : Option (List String))
    → IsAscending (tracked_names available tracked)
tracked_names-IsAscending available none = sort_strings-IsAscending _
tracked_names-IsAscending available (some names) = sort_strings-IsAscending names

-- The containers that a revision selects are accepted by the validation of a stored state: each has
-- a name and an image, and their names strictly ascend.
pub select_containers_valid :
    (containers : List Container) (tracked : Option (List String)) (selected : Selected)
    → select_containers containers tracked ≡ ok selected
    → validate_containers selected.containers "" ≡ ok tt
unfolding select_containers
select_containers_valid containers tracked selected h =
    let (available, i, h₁) = bind_ok (index_containers containers []) _ selected h in
    let (_, _, h₂) = bind_ok (fail_if (is_empty available) no_containers) _ selected h₁ in
    let (_, _, h₃) = bind_ok (fail_if (named_nothing tracked) empty_tracking) _ selected h₂ in
    let (picked, p, h₄) =
      bind_ok (pick available none (tracked_names available tracked)) _ selected h₃ in
    subst (λ s. validate_containers s.containers "" ≡ ok tt) (ok_injective _ selected h₄)
      (pick_valid available none (tracked_names available tracked) picked
        (index_containers-IsIndexed containers [] available nothing-IsIndexed i) tt
        (tracked_names-IsAscending available tracked) p)
