-- ===== src/State/Cleanup/Gone.antt =====
-- Which states `CleanupDeleted` of internal/state/cleanup.go takes for gone.
use kube_workload_lm.Base.{
  String, eq_iff, Bool, true, false, Option, none, some, ◌≡◌, ◌≢◌, ◌↔◌, refl, sym, subst, arith,
  if◌then◌else◌,
}
use kube_workload_lm.Base.Int.{ℤ}
use kube_workload_lm.Base.Time.{Time, before, add}
use kube_workload_lm.Base.Dict.{lookup}
use kube_workload_lm.State.Types.{WorkloadState}
use kube_workload_lm.State.Cleanup.{
  Inventory, KindInventory, incomplete, gone, judge, judge_kind, judge_listed, inventory_key,
}

judge_listed_gone :
    (o : Option String) (now : Time) (retention : ℤ) (s : WorkloadState)
    → (judge_listed o now retention s ≡ gone) ↔ (
        (o ≢ some "")
        × (o ≢ some s.workload_uid)
        × (before now (add s.last_seen_at retention) ≡ false))
unfolding judge_listed
judge_listed_gone none now retention s = grind arith
judge_listed_gone (some uid) now retention s =
    ground (arith, eq_iff uid "", eq_iff uid s.workload_uid)

known_gone :
    (complete : Bool) (o : Option String) (now : Time) (retention : ℤ) (s : WorkloadState)
    → ((if complete then judge_listed o now retention s else incomplete) ≡ gone) ↔ (
        (complete ≡ true)
        × (o ≢ some "")
        × (o ≢ some s.workload_uid)
        × (before now (add s.last_seen_at retention) ≡ false))
known_gone false o now retention s = ground arith
known_gone true o now retention s =
    let (to, from) = judge_listed_gone o now retention s in
    (λ e. let (a, b, c) = to e in (refl, a, b, c), λ (_, a, b, c). from (a, b, c))

-- The state's UID in the inventory of its kind.
abbrev listed_uid : KindInventory → WorkloadState → Option String
listed_uid listed s = lookup (inventory_key s.namespace s.name) listed.uids

judge_kind_found :
    (o : Option KindInventory) (now : Time) (retention : ℤ) (s : WorkloadState)
    → judge_kind o now retention s ≡ gone
    → (listed : KindInventory) × (o ≡ some listed)
      × (listed.list_succeeded ≡ true)
      × (listed_uid listed s ≢ some "")
      × (listed_uid listed s ≢ some s.workload_uid)
      × (before now (add s.last_seen_at retention) ≡ false)
unfolding judge_kind
judge_kind_found none now retention s e = ground arith
judge_kind_found (some listed) now retention s e =
    let (hit, a, b, c) =
      (known_gone listed.list_succeeded (listed_uid listed s) now retention s).0 e in
    (listed, refl, hit, a, b, c)

judge_kind_gone :
    (o : Option KindInventory) (now : Time) (retention : ℤ) (s : WorkloadState)
    → (judge_kind o now retention s ≡ gone) ↔ (
        (listed : KindInventory) × (o ≡ some listed)
        × (listed.list_succeeded ≡ true)
        × (lookup (inventory_key s.namespace s.name) listed.uids ≢ some "")
        × (lookup (inventory_key s.namespace s.name) listed.uids ≢ some s.workload_uid)
        × (before now (add s.last_seen_at retention) ≡ false))
unfolding judge_kind
judge_kind_gone o now retention s = (
  judge_kind_found o now retention s,
  λ (listed, found, hit, a, b, c).
      subst (λ x. judge_kind x now retention s ≡ gone) (sym found)
        ((known_gone listed.list_succeeded (listed_uid listed s) now retention s).1 (hit, a, b, c)),
)

-- A state is taken for gone exactly if its kind was listed completely, the listing has no
-- workload of its name, or one with another UID that is not empty, and the time for which states
-- are retained has passed.
pub judge_gone :
    (inventory : Inventory) (now : Time) (retention : ℤ) (s : WorkloadState)
    → (judge inventory now retention s ≡ gone) ↔ (
        (listed : KindInventory) × (lookup s.kind inventory ≡ some listed)
        × (listed.list_succeeded ≡ true)
        × (lookup (inventory_key s.namespace s.name) listed.uids ≢ some "")
        × (lookup (inventory_key s.namespace s.name) listed.uids ≢ some s.workload_uid)
        × (before now (add s.last_seen_at retention) ≡ false))
unfolding judge
judge_gone inventory now retention s = judge_kind_gone (lookup s.kind inventory) now retention s
