-- ===== src/Policy/Nulls/Decides.antt =====
-- The search of internal/policy/decode.go for explicit nulls ends on a document whose aliases point
-- nowhere back, and decides whether there is one.
use kube_workload_lm.Base.{
  ℕ, zero, suc, ◌<◌, String, ◌==◌, Bool, true, false, some, List, [], ◌∷◌, ok, err, ◌≡◌, ◌⊎◌, inl,
  inr, refl, sym, ap, subst, arith, Bool-cases,
}
use kube_workload_lm.Policy.Nulls.{
  NodeKind, document_node, mapping_node, sequence_node, scalar_node, alias_node, Node, Nodes,
  NullError, explicit_null, no_value, Answer, unless_null, visit_all, visit_values, visit_items,
  visit_kind, reject_nulls,
}

abbrev pub Member : ℕ → List ℕ → Type 0
Member x [] = true ≡ false
Member x (y ∷ ys) = (x ≡ y) ⊎ Member x ys

abbrev values_of : List ℕ → List ℕ
values_of [] = []
values_of (key ∷ []) = []
values_of (key ∷ value ∷ rest) = value ∷ values_of rest

abbrev is_odd : List ℕ → Bool
is_odd [] = false
is_odd (key ∷ []) = true
is_odd (key ∷ value ∷ rest) = is_odd rest

abbrev kind_children : NodeKind → Node → List ℕ
kind_children document_node node = node.content
kind_children mapping_node node = values_of node.content
kind_children sequence_node node = node.content
kind_children scalar_node node = []
kind_children alias_node node = node.alias ∷ []

-- The nodes that hold the values of a node: the keys of a mapping are none.
abbrev pub children : Node → List ℕ
children node = kind_children node.kind node

abbrev kind_unpaired : NodeKind → Node → Bool
kind_unpaired mapping_node node = is_odd node.content
kind_unpaired other node = false

-- A mapping with a key and no value, which no parser makes.
abbrev pub is_unpaired : Node → Bool
is_unpaired node = kind_unpaired node.kind node

-- There is a null, or an unpaired key, at the node or below.
pub data IsFlawed (nodes : Nodes) : ℕ → Type 0 where
  null_here : (id : ℕ) → (nodes id).tag == "!!null" ≡ true → IsFlawed nodes id
  unpaired_here : (id : ℕ) → is_unpaired (nodes id) ≡ true → IsFlawed nodes id
  flawed_below :
      (id child : ℕ) → Member child (children (nodes id)) → IsFlawed nodes child → IsFlawed nodes id

-- Each node has a rank above those of its children: no alias leads back.
abbrev pub IsRanked : Nodes → (ℕ → ℕ) → Type 0
IsRanked nodes rank = (id child : ℕ) → Member child (children (nodes id)) → rank child < rank id

abbrev pub Verdict : Answer → Type 0 → Type 0
Verdict answer F =
    ((answer ≡ some (ok tt)) × (¬ F)) ⊎ ((e : NullError) × (answer ≡ some (err e)) × F)

abbrev Somewhere : (ℕ → Type 0) → List ℕ → Type 0
Somewhere F ids = (child : ℕ) × Member child ids × F child

Verdict-map :
    {F G : Type 0} (answer : Answer) → (F → G) → (G → F) → Verdict answer F → Verdict answer G
Verdict-map answer f g (inl (e, h)) = inl (e, λ x. h (g x))
Verdict-map answer f g (inr (e, h, x)) = inr (e, h, f x)

nowhere : (F : ℕ → Type 0) → ¬ Somewhere F []
nowhere F (c, m, f) = grind arith

unless_null-Verdict :
    {F G : Type 0} (a b : Answer) → Verdict a F → Verdict b G → Verdict (unless_null a b) (F ⊎ G)
unless_null-Verdict {F} {G} a b (inl (e, h)) v =
    subst (λ a. Verdict (unless_null a b) (F ⊎ G)) (sym e) (Verdict-map b inr (λ x. right h x) v)
  where
    right : (¬ F) → F ⊎ G → G
    right h (inl f) = absurd (h f)
    right h (inr g) = g
unless_null-Verdict a b (inr (x, e, f)) v = inr (x, ap (λ a. unless_null a b) e, inl f)

either-Somewhere :
    (F : ℕ → Type 0) (x : ℕ) (xs : List ℕ) → F x ⊎ Somewhere F xs → Somewhere F (x ∷ xs)
either-Somewhere F x xs (inl f) = (x, inl refl, f)
either-Somewhere F x xs (inr (c, m, f)) = (c, inr m, f)

Somewhere-either :
    (F : ℕ → Type 0) (x : ℕ) (xs : List ℕ) → Somewhere F (x ∷ xs) → F x ⊎ Somewhere F xs
Somewhere-either F x xs (c, inl e, f) = inl (subst F e f)
Somewhere-either F x xs (c, inr m, f) = inr (c, m, f)

paired : {A : Type 0} → (false ≡ true) ⊎ A → A
paired (inl h) = grind arith
paired (inr a) = a

-- Each member was decided, on whatever path.
abbrev Decided : (ℕ → String → Answer) → (ℕ → Type 0) → List ℕ → Type 0
Decided visit F ids = (c : ℕ) → Member c ids → (path : String) → Verdict (visit c path) (F c)

module _ (visit : ℕ → String → Answer) (F : ℕ → Type 0) where
  visit_all-Verdict :
      (ids : List ℕ) (path : String)
      → Decided visit F ids
      → Verdict (visit_all visit ids path) (Somewhere F ids)
  visit_all-Verdict [] path d = inl (refl, nowhere F)
  visit_all-Verdict (x ∷ xs) path d =
      Verdict-map _ (either-Somewhere F x xs) (Somewhere-either F x xs) (
        unless_null-Verdict _ _ (d x (inl refl) path)
          (visit_all-Verdict xs path (λ c m. d c (inr m))))

  visit_items-Verdict :
      (print : ℕ → String) (index : ℕ) (ids : List ℕ) (path : String)
      → Decided visit F ids
      → Verdict (visit_items print visit index ids path) (Somewhere F ids)
  visit_items-Verdict print index [] path d = inl (refl, nowhere F)
  visit_items-Verdict print index (x ∷ xs) path d =
      Verdict-map _ (either-Somewhere F x xs) (Somewhere-either F x xs) (
        unless_null-Verdict _ _ (d x (inl refl) _)
          (visit_items-Verdict print (suc index) xs path (λ c m. d c (inr m))))

  swap_odd :
      (b : Bool) (x : ℕ) (xs : List ℕ)
      → F x ⊎ ((b ≡ true) ⊎ Somewhere F xs)
      → (b ≡ true) ⊎ Somewhere F (x ∷ xs)
  swap_odd b x xs (inl f) = inr (x, inl refl, f)
  swap_odd b x xs (inr (inl h)) = inl h
  swap_odd b x xs (inr (inr s)) = inr (either-Somewhere F x xs (inr s))

  unswap_odd :
      (b : Bool) (x : ℕ) (xs : List ℕ)
      → (b ≡ true) ⊎ Somewhere F (x ∷ xs)
      → F x ⊎ ((b ≡ true) ⊎ Somewhere F xs)
  unswap_odd b x xs (inl h) = inr (inl h)
  unswap_odd b x xs (inr (c, inl e, f)) = inl (subst F e f)
  unswap_odd b x xs (inr (c, inr m, f)) = inr (inr (c, m, f))

  visit_values-Verdict :
      (nodes : Nodes) (ids : List ℕ) (path : String)
      → Decided visit F (values_of ids)
      → Verdict
          (visit_values visit nodes ids path)
          ((is_odd ids ≡ true) ⊎ Somewhere F (values_of ids))
  visit_values-Verdict nodes [] path d = inl (refl, λ h. nowhere F (paired h))
  visit_values-Verdict nodes (key ∷ []) path d = inr (no_value, refl, inl refl)
  visit_values-Verdict nodes (key ∷ x ∷ xs) path d =
      Verdict-map _ (swap_odd (is_odd xs) x (values_of xs))
        (unswap_odd (is_odd xs) x (values_of xs))
        (unless_null-Verdict _ _ (d x (inl refl) _)
          (visit_values-Verdict nodes xs path (λ c m. d c (inr m))))

-- What is flawed about a node, but for its own tag.
abbrev Below : Nodes → Node → Type 0
Below nodes node = (is_unpaired node ≡ true) ⊎ Somewhere (IsFlawed nodes) (children node)

module _ (print : ℕ → String) (nodes : Nodes) (visit : ℕ → String → Answer) where
  abbrev KindBelow : NodeKind → Node → Type 0
  KindBelow kind node =
      (kind_unpaired kind node ≡ true) ⊎ Somewhere (IsFlawed nodes) (kind_children kind node)

  aliased : (node : Node) → KindBelow alias_node node → IsFlawed nodes node.alias
  aliased node (inl h) = grind arith
  aliased node (inr (c, inl e, f)) = subst (IsFlawed nodes) e f
  aliased node (inr (c, inr m, f)) = grind arith

  visit_kind-Verdict :
      (kind : NodeKind) (node : Node) (path : String)
      → Decided visit (IsFlawed nodes) (kind_children kind node)
      → Verdict (visit_kind print nodes kind visit node path) (KindBelow kind node)
  visit_kind-Verdict document_node node path d =
      Verdict-map _ inr paired (visit_all-Verdict visit (IsFlawed nodes) node.content path d)
  visit_kind-Verdict mapping_node node path d =
      visit_values-Verdict visit (IsFlawed nodes) nodes node.content path d
  visit_kind-Verdict sequence_node node path d =
      Verdict-map _ inr paired
        (visit_items-Verdict visit (IsFlawed nodes) print 0 node.content path d)
  visit_kind-Verdict scalar_node node path d = inl (refl, λ h. nowhere (IsFlawed nodes) (paired h))
  visit_kind-Verdict alias_node node path d =
      Verdict-map _ (λ f. inr (node.alias, inl refl, f)) (aliased node)
        (d node.alias (inl refl) path)

flawed_of : (nodes : Nodes) (id : ℕ) → Below nodes (nodes id) → IsFlawed nodes id
flawed_of nodes id (inl h) = unpaired_here id h
flawed_of nodes id (inr (c, m, f)) = flawed_below id c m f

of_flawed :
    (nodes : Nodes) (id : ℕ)
    → (nodes id).tag == "!!null" ≡ false
    → IsFlawed nodes id
    → Below nodes (nodes id)
of_flawed nodes id plain (null_here _ h) = grind arith
of_flawed nodes id plain (unpaired_here _ h) = inl h
of_flawed nodes id plain (flawed_below _ c m f) = inr (c, m, f)

below_rank : (a b n : ℕ) → a < b → b < suc n → a < n
below_rank a b n h k = omega arith

-- In a document whose nodes can be ranked, fuel above the rank of a node is enough for the search
-- from it: it ends, with an error exactly if there is a null, or a key without a value, at the node
-- or below, through aliases too.
pub reject_nulls_decides :
    (print : ℕ → String) (nodes : Nodes) (rank : ℕ → ℕ)
    → IsRanked nodes rank
    → (fuel id : ℕ) (path : String) → rank id < fuel
    → Verdict (reject_nulls print nodes fuel id path) (IsFlawed nodes id)
unfolding reject_nulls
reject_nulls_decides print nodes rank ranked zero id path h = absurd (omega arith)
reject_nulls_decides print nodes rank ranked (suc fuel) id path h =
    elim (Bool-cases ((nodes id).tag == "!!null")) [
      | inl null ↦ rw null (inr (explicit_null path, refl, null_here id null))
      | inr plain ↦ rw plain (
          Verdict-map _ (flawed_of nodes id) (of_flawed nodes id plain) (
            visit_kind-Verdict print nodes (reject_nulls print nodes fuel) (nodes id).kind
              (nodes id) path
              (λ c m path.
                reject_nulls_decides print nodes rank ranked fuel c path
                  (below_rank (rank c) (rank id) fuel (ranked id c m) h))))
    ]
