-- ===== src/Policy/Nulls.antt =====
-- `rejectNulls` of internal/policy/decode.go. The nodes of a parsed YAML document are the parameter
-- `Nodes`: a store of yaml.Node values under their addresses, since an alias points back into the
-- document. The recursion runs on fuel, and without an answer it is out of fuel: an alias to a node
-- that it stands in has no end.
pub mod Decides
use kube_workload_lm.Base.{
  ℕ, zero, suc, ◌+◌, String, ◌<>◌, ◌==◌, Bool, true, false, Option, none, some, List, [], ◌∷◌,
  Result, ok, err, ◌≡◌, if◌then◌else◌,
}

pub data NodeKind : Type 0 where
  document_node mapping_node sequence_node scalar_node alias_node : NodeKind

pub record Node : Type 0 where
  pub kind : NodeKind
  pub tag : String
  pub value : String
  pub content : List ℕ
  pub alias : ℕ

abbrev pub Nodes : Type 0
Nodes = ℕ → Node

pub data NullError : Type 0 where
  explicit_null : String → NullError
  -- an index past the end, which panics: a mapping with a key and no value
  no_value : NullError

abbrev pub Answer : Type 0
Answer = Option (Result NullError (Unit {0}))

-- `if err := …; err != nil { return err }`
abbrev pub unless_null : Answer → Answer → Answer
unless_null none rest = none
unless_null (some (ok a)) rest = rest
unless_null (some (err e)) rest = some (err e)

abbrev pub visit_all : (ℕ → String → Answer) → List ℕ → String → Answer
visit_all visit [] path = some (ok tt)
visit_all visit (child ∷ rest) path = unless_null (visit child path) (visit_all visit rest path)

-- The loop over keys and values, two by two.
abbrev pub visit_values : (ℕ → String → Answer) → Nodes → List ℕ → String → Answer
visit_values visit nodes [] path = some (ok tt)
visit_values visit nodes (key ∷ []) path = some (err no_value)
visit_values visit nodes (key ∷ value ∷ rest) path =
    unless_null (visit value (path <> "." <> (nodes key).value))
      (visit_values visit nodes rest path)

abbrev pub visit_items : (ℕ → String) → (ℕ → String → Answer) → ℕ → List ℕ → String → Answer
visit_items print visit index [] path = some (ok tt)
visit_items print visit index (child ∷ rest) path =
    unless_null (visit child (path <> "[" <> print index <> "]"))
      (visit_items print visit (suc index) rest path)

module _ (print : ℕ → String) (nodes : Nodes) where
  abbrev pub visit_kind : NodeKind → (ℕ → String → Answer) → Node → String → Answer
  visit_kind document_node visit node path = visit_all visit node.content path
  visit_kind mapping_node visit node path = visit_values visit nodes node.content path
  visit_kind sequence_node visit node path = visit_items print visit 0 node.content path
  visit_kind scalar_node visit node path = some (ok tt)
  visit_kind alias_node visit node path = visit node.alias path

  unfoldable pub reject_nulls : ℕ → ℕ → String → Answer
  reject_nulls zero id path = none
  reject_nulls (suc fuel) id path =
      let visit = reject_nulls fuel in
      let node = nodes id in
      if node.tag == "!!null"
      then some (err (explicit_null path))
      else visit_kind node.kind visit node path
