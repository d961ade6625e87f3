-- ===== src/Graph/Validate/Registry.antt =====
-- Lemmas on the map of nodes that the first loop of `Validate` builds
-- (engine/ax/internal/taskgraph/model.go).
use task_a.Prelude.{
  String, true, false, List, [], ◌∷◌, map, Map, lookup, insert, none, some, ok, >>=-eq-ok,
  ok-injective, ◌≡◌, ◌≢◌, sym, ◌∙◌, ap, eq_iff, lookup-insert, lookup-insert_self, lookup-insert_ne,
  Memᴰ, mem-map, All, arith, String-cases, Option-cases, inl, inr, ◌⊎◌, subst,
}
use task_a.Graph.Model.{Node}
use task_a.Graph.Names.{valid_name}
use task_a.Graph.Validate.{is_known, check_node, check_nodes}
use task_a.Graph.Validate.Nodes.{IsValidNode, IsDistinct, check_node_lem}

abbrev pub node_id : Node → String
node_id n = n.id

-- Every entry is a node under its own, valid id.
abbrev IsKeyed : Map Node → Type 0
IsKeyed nodes =
    (id : String) (n : Node) → lookup id nodes ≡ some n → (n.id ≡ id) × (valid_name n.id ≡ true)

valid_name-ne-empty : (s : String) → valid_name s ≡ true → s ≢ ""
unfolding valid_name
valid_name-ne-empty s h e = cc (subst (λ x. valid_name x ≡ true) e h)

-- In a keyed map only a missing id is unknown.
unknown_missing :
    (nodes : Map Node) (id : String)
    → IsKeyed nodes
    → is_known id nodes ≡ false
    → lookup id nodes ≡ none
unknown_missing nodes id keyed h = elim (Option-cases (lookup id nodes)) [
  | inl e ↦ e
  | inr (n, e) ↦
      let (same, named) = keyed id n e in
      absurd (valid_name-ne-empty n.id named ((eq_iff n.id "").0 (ground arith)))
]

some-inj : {x y : Node} → some x ≡ some y → x ≡ y
some-inj e = cc

insert-IsKeyed :
    (n : Node) (nodes : Map Node) → IsValidNode n → IsKeyed nodes → IsKeyed (insert n.id n nodes)
insert-IsKeyed n nodes v keyed id m h = elim (String-cases n.id id) [
  | inl p ↦
      let same : n ≡ m = some-inj (rw (lookup-insert, p.1) at h) in
      subst (λ (x : Node). (x.id ≡ id) × (valid_name x.id ≡ true)) same (p.0, v.named)
  | inr p ↦ keyed id m (rw (lookup-insert, p.1) at h)
]

-- What the loop makes of the map `nodes`, from which it starts.
pub record IsRegistry (nodes : Map Node) (ns : List Node) (nodes' : Map Node) : Type 0 where
  pub valid : All IsValidNode ns
  pub kept : (id : String) (n : Node) → lookup id nodes ≡ some n → lookup id nodes' ≡ some n
  pub found : (n : Node) → Memᴰ n ns → lookup n.id nodes' ≡ some n
  pub fresh : (n : Node) → Memᴰ n ns → lookup n.id nodes ≡ none
  pub origin :
      (id : String) (n : Node)
      → lookup id nodes' ≡ some n
      → (lookup id nodes ≡ some n) ⊎ (Memᴰ n ns × (n.id ≡ id))
  pub distinct : IsDistinct (map node_id ns)

module _ (n : Node) (ns : List Node) (nodes nodes' : Map Node) (missing : lookup n.id nodes ≡ none)
    (ih : IsRegistry (insert n.id n nodes) ns nodes') where
  cons-kept : (id : String) (m : Node) → lookup id nodes ≡ some m → lookup id nodes' ≡ some m
  cons-kept id m e = elim (String-cases n.id id) [
    | inl p ↦ cc (p.0, missing, e)
    | inr p ↦ ih.kept id m (lookup-insert_ne n.id id n nodes p.0 ∙ e)
  ]

  cons-found : (m : Node) → Memᴰ m (n ∷ ns) → lookup m.id nodes' ≡ some m
  cons-found m (Memᴰ.head e) =
      subst (λ (x : Node). lookup x.id nodes' ≡ some x) (sym e)
        (ih.kept n.id n (lookup-insert_self n.id n nodes))
  cons-found m (Memᴰ.tail k) = ih.found m k

  cons-fresh : (m : Node) → Memᴰ m (n ∷ ns) → lookup m.id nodes ≡ none
  cons-fresh m (Memᴰ.head e) = subst (λ (x : Node). lookup x.id nodes ≡ none) (sym e) missing
  cons-fresh m (Memᴰ.tail k) = elim (String-cases n.id m.id) [
    | inl p ↦ ground (arith, ih.fresh m k, lookup-insert n.id m.id n nodes, p.1)
    | inr p ↦ rw (lookup-insert, p.1) at (ih.fresh m k)
  ]

  cons-origin :
      (id : String) (m : Node)
      → lookup id nodes' ≡ some m
      → (lookup id nodes ≡ some m) ⊎ (Memᴰ m (n ∷ ns) × (m.id ≡ id))
  cons-origin id m e = elim (ih.origin id m e) [
    | inr (k, q) ↦ inr (Memᴰ.tail k, q)
    | inl q ↦ elim (String-cases n.id id) [
      | inl p ↦
          let same : n ≡ m = some-inj (rw (lookup-insert, p.1) at q) in
          inr (Memᴰ.head (sym same), ap (λ (x : Node). x.id) (sym same) ∙ p.0)
      | inr p ↦ inl (rw (lookup-insert, p.1) at q)
    ]
  ]

  cons-distinct : ¬ Memᴰ n.id (map node_id ns)
  cons-distinct k =
      let (x, m, e) = mem-map node_id ns k in
      let stored : lookup x.id (insert n.id n nodes) ≡ some n =
        subst (λ i. lookup i (insert n.id n nodes) ≡ some n) e (lookup-insert_self n.id n nodes) in
      cc (ih.fresh x m, stored)

check_nodes-IsRegistry :
    (ns : List Node) (nodes nodes' : Map Node)
    → IsKeyed nodes
    → check_nodes ns nodes ≡ ok nodes'
    → IsRegistry nodes ns nodes'
unfolding check_nodes
check_nodes-IsRegistry [] nodes nodes' keyed h =
    subst (IsRegistry nodes []) (ok-injective h) (record {
      valid = tt;
      kept = λ id n e. e;
      found = λ n m. elim m [ ];
      fresh = λ n m. elim m [ ];
      origin = λ id n e. inl e;
      distinct = tt;
    })
check_nodes-IsRegistry (n ∷ ns) nodes nodes' keyed h =
    let (nodes₁, first, rest) = >>=-eq-ok (check_node n nodes) (check_nodes ns) h in
    let (valid, unknown, e) = check_node_lem n nodes nodes₁ first in
    let missing = unknown_missing nodes n.id keyed unknown in
    let ih =
      check_nodes-IsRegistry ns (insert n.id n nodes) nodes' (insert-IsKeyed n nodes valid keyed)
        (subst (λ x. check_nodes ns x ≡ ok nodes') e rest) in
    record {
      valid = (valid, ih.valid);
      kept = cons-kept n ns nodes nodes' missing ih;
      found = cons-found n ns nodes nodes' missing ih;
      fresh = cons-fresh n ns nodes nodes' missing ih;
      origin = cons-origin n ns nodes nodes' missing ih;
      distinct = (cons-distinct n ns nodes nodes' missing ih, ih.distinct);
    }

-- From the empty map.
pub check_nodes_lem :
    (ns : List Node) (nodes : Map Node) → check_nodes ns [] ≡ ok nodes → IsRegistry [] ns nodes
unfolding lookup
check_nodes_lem ns nodes h = check_nodes-IsRegistry ns [] nodes (λ id n e. cc) h
