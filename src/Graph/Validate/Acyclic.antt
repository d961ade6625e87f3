-- ===== src/Graph/Validate/Acyclic.antt =====
-- The dependencies of a plan, and what `Validate` (engine/ax/internal/taskgraph/model.go) says of their
-- cycles.
use mathlib.Core.WellFounded.{Acc}
use task_a.Prelude.{
  String, suc, Bool, [], ◌∷◌, Map, lookup, lookup-nil, keys, some, ok, err, >>=-eq-ok, >>=-eq-err,
  length, ◌≡◌, ◌≢◌, refl, Memᴰ, arith, Option-cases, inl, inr, subst, lookup-keys,
}
use task_a.Graph.Model.{Plan, Node}
use task_a.Graph.Validate.Visit.{
  dependency_cycle, out_of_fuel, Marks, is_set, input_tasks, deps_of, visit_all, visit, visit_nodes,
}
use task_a.Graph.Validate.Cycles.{Needs, IsSound, visit-IsSound, visit_all-IsSound, visit-SameOpen}
use task_a.Graph.Validate.Bound.{
  Chain, Chain-map, closed-le-length, visit-Suffices, visit_all-Suffices, visit-Reports,
  visit_all-Reports,
}
use task_a.Graph.Validate.Registry.{check_nodes_lem}
use task_a.Graph.Validate.Sound.{accepted}
use task_a.Graph.Validate.Errors.{search_error}
use task_a.Graph.Validate.{check_nodes, validate}

-- In the plan `p`, the task `x` has an input from the task `d`.
abbrev pub Feeds : Plan → String → String → Type 0
Feeds p d x = (n : Node) × Memᴰ n p.tasks × (n.id ≡ x) × Memᴰ d (input_tasks n.inputs)

module _ (p : Plan) (nodes : Map Node) (built : check_nodes p.tasks [] ≡ ok nodes) where
  Feeds→Needs : (d x : String) → Feeds p d x → Needs nodes d x
  unfolding deps_of
  Feeds→Needs d x (n, m, e, k) =
      let at : lookup x nodes ≡ some n =
        subst (λ i. lookup i nodes ≡ some n) e ((check_nodes_lem p.tasks nodes built).found n m) in
      rw (at, deps_of) k

  Needs→Feeds : (d x : String) → Needs nodes d x → Feeds p d x
  unfolding deps_of
  Needs→Feeds d x k = elim (Option-cases (lookup x nodes)) [
    | inl e ↦ elim (rw (e, deps_of) at k) [ ]
    | inr (n, e) ↦ elim ((check_nodes_lem p.tasks nodes built).origin x n e) [
      | inl q ↦ cc (lookup-nil {V = Node} x, q)
      | inr (m, same) ↦ (n, m, same, rw (e, deps_of) at k)
    ]
  ]

Acc-map :
    {R S : String → String → Type 0} {x : String}
    → ((d y : String) → S d y → R d y)
    → Acc R x
    → Acc S x
Acc-map f (Acc.intro x below) = Acc.intro x (λ d s. Acc-map f (below d (f d x s)))

abbrev unmarked : Marks
unmarked = record { visiting = []; done = [] }

unmarked-IsSound : (nodes : Map Node) → IsSound nodes unmarked
unfolding is_set
unmarked-IsSound nodes x h = cc (lookup-nil {V = Bool} x)

visit_nodes-Acc :
    (nodes : Map Node)
    → visit_nodes nodes ≡ ok tt
    → (d : String) → Memᴰ d (keys nodes)
    → Acc (Needs nodes) d
unfolding visit_nodes
visit_nodes-Acc nodes h =
    let (m, all, _) =
      >>=-eq-ok (visit_all (visit (suc (length nodes)) nodes) (keys nodes) unmarked) _ h in
    (visit_all-IsSound nodes (visit (suc (length nodes)) nodes)
      (visit-IsSound nodes (suc (length nodes))) (keys nodes) unmarked m (unmarked-IsSound nodes)
      all).1

-- In an accepted plan no task depends on itself, directly or through others: the dependencies of
-- each task are well-founded.
pub validate-Acc : (p : Plan) (n : Node) → validate p ≡ ok tt → Memᴰ n p.tasks → Acc (Feeds p) n.id
validate-Acc p n h m =
    let a = accepted p h in
    let at = (check_nodes_lem p.tasks a.nodes a.built).found n m in
    Acc-map (Feeds→Needs p a.nodes a.built)
      (visit_nodes-Acc a.nodes a.visited n.id (lookup-keys n.id n a.nodes at))

visit_nodes-Chain :
    (nodes : Map Node) (x : String)
    → visit_nodes nodes ≡ err (dependency_cycle x)
    → Chain (Needs nodes) x x
unfolding visit_nodes is_set
visit_nodes-Chain nodes x h =
    elim (>>=-eq-err (visit_all (visit (suc (length nodes)) nodes) (keys nodes) unmarked) _ h) [
      | inr (m, _, e) ↦ cc
      | inl e ↦
          visit_all-Reports nodes (visit (suc (length nodes)) nodes)
            (visit-SameOpen nodes (suc (length nodes))) (visit-Reports nodes (suc (length nodes))) x
            (keys nodes) unmarked (λ d k y o. cc (lookup-nil {V = Bool} y)) e
    ]

length-keys {ℓ} : {V : Type ℓ} (m : Map V) → length (keys m) ≡ length m
length-keys [] = refl
length-keys ((k, v) ∷ m) = omega (arith, length-keys m)

visit_nodes_total : (nodes : Map Node) → visit_nodes nodes ≢ err out_of_fuel
unfolding visit_nodes
visit_nodes_total nodes h =
    elim (>>=-eq-err (visit_all (visit (suc (length nodes)) nodes) (keys nodes) unmarked) _ h) [
      | inr (m, _, e) ↦ cc
      | inl e ↦
          visit_all-Suffices nodes (suc (length nodes)) (visit (suc (length nodes)) nodes)
            (visit-SameOpen nodes (suc (length nodes))) (visit-Suffices nodes (suc (length nodes)))
            (keys nodes) unmarked
            (omega (arith, closed-le-length (keys nodes) [], length-keys nodes)) e
    ]

-- An accepted or a rejected plan: the search stops of itself, within its bound.
pub validate_total : (p : Plan) → validate p ≢ err out_of_fuel
validate_total p h =
    let (nodes, _, e) = search_error p out_of_fuel h refl in visit_nodes_total nodes e

-- A reported cycle is one: the task named in the error depends on itself, through one or more
-- inputs of the plan.
pub validate-Chain :
    (p : Plan) (x : String) → validate p ≡ err (dependency_cycle x) → Chain (Feeds p) x x
validate-Chain p x h =
    let (nodes, built, e) = search_error p (dependency_cycle x) h refl in
    Chain-map (Needs→Feeds p nodes built) (visit_nodes-Chain nodes x e)
