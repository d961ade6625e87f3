-- ===== src/Graph/Validate/Sound.antt =====
-- The parts of a plan that `Validate` accepts (engine/ax/internal/taskgraph/model.go).

use task_a.Prelude.{
  String, not, ◌||◌, List, [], ◌∷◌, map, Map, lookup, lookup-nil, elem, elem-mem, some, ok,
  >>=-eq-ok, reject-eq-ok, ◌≡◌, sym, ap, Memᴰ, All, arith, Option-cases, inl, inr, subst,
}
use task_a.Graph.Model.{Plan, Node, Input}
use task_a.Graph.Names.{valid_name}
use task_a.Graph.Validate.Visit.{visit_nodes}
use task_a.Graph.Validate.Nodes.{IsValidNode, IsDistinct}
use task_a.Graph.Validate.Registry.{node_id, check_nodes_lem}
use task_a.Graph.Validate.{check_nodes, check_links, check_all_links, is_positive, is_nil, validate}

-- The parts of a successful validation.
pub record Accepted (p : Plan) : Type 0 where
  pub nodes : Map Node
  pub built : check_nodes p.tasks [] ≡ ok nodes
  pub linked : (u : Unit {0}) × (check_all_links nodes p.tasks ≡ ok u)
  pub visited : visit_nodes nodes ≡ ok tt

pub accepted : (p : Plan) → validate p ≡ ok tt → Accepted p
unfolding validate
accepted p h =
    let (_, h₁) =
      reject-eq-ok (not (valid_name p.id) || not (is_positive p.revision) || is_nil p.tasks) _ _
        h in
    let (nodes, built, h₂) = >>=-eq-ok (check_nodes p.tasks []) _ h₁ in
    let (u, linked, h₃) = >>=-eq-ok (check_all_links nodes p.tasks) _ h₂ in
    record { nodes = nodes; built = built; linked = (u, linked); visited = h₃ }

-- The keys of an accepted plan are distinct, and each task is well-formed: its paths stay below the
-- working directory, and its files, inputs, outputs and validator files do not overlap.
pub validate-nodes :
    (p : Plan) → validate p ≡ ok tt → All IsValidNode p.tasks × IsDistinct (map node_id p.tasks)
validate-nodes p h =
    let a = accepted p h in let r = check_nodes_lem p.tasks a.nodes a.built in (r.valid, r.distinct)

-- A declared output of a task of the plan.
abbrev pub Provides : Plan → Input → Type 0
Provides p i = (dep : Node) × Memᴰ dep p.tasks × (dep.id ≡ i.task) × Memᴰ i.output dep.outputs

check_links_lem :
    (nodes : Map Node) (is : Map Input) {u : Unit {0}}
    → check_links nodes is ≡ ok u
    → (f : String) (i : Input) → Memᴰ (f, i) is
    → (dep : Node) × (lookup i.task nodes ≡ some dep) × Memᴰ i.output dep.outputs
unfolding check_links
check_links_lem nodes [] h f i m = elim m [ ]
check_links_lem nodes ((g, j) ∷ is) h f i m = elim (Option-cases (lookup j.task nodes)) [
  | inl e ↦ cc (rw (e, check_links) at h)
  | inr (dep, e) ↦
      let (found, rest) =
        reject-eq-ok (not (elem j.output dep.outputs)) _ _ (rw (e, check_links) at h) in
      here dep e (elem-mem j.output dep.outputs (ground arith)) m
        (λ k. check_links_lem nodes is rest f i k)
]
  where
    here :
        (dep : Node)
        → lookup j.task nodes ≡ some dep
        → Memᴰ j.output dep.outputs
        → Memᴰ (f, i) ((g, j) ∷ is)
        → (Memᴰ (f, i) is → (d : Node) × (lookup i.task nodes ≡ some d) × Memᴰ i.output d.outputs)
        → (d : Node) × (lookup i.task nodes ≡ some d) × Memᴰ i.output d.outputs
    here dep e out (Memᴰ.head q) ih =
        let same : j ≡ i = ap {B = Input} (λ x. x.1) (sym q) in
        subst (λ (x : Input). (d : Node) × (lookup x.task nodes ≡ some d) × Memᴰ x.output d.outputs)
          same (dep, e, out)
    here dep e out (Memᴰ.tail k) ih = ih k

check_all_links_lem :
    (nodes : Map Node) (ns : List Node) {u : Unit {0}}
    → check_all_links nodes ns ≡ ok u
    → (n : Node) → Memᴰ n ns
    → check_links nodes n.inputs ≡ ok tt
unfolding check_all_links
check_all_links_lem nodes [] h n m = elim m [ ]
check_all_links_lem nodes (x ∷ ns) h n m =
    let (_, first, rest) = >>=-eq-ok (check_links nodes x.inputs) _ h in
    here first m (λ k. check_all_links_lem nodes ns rest n k)
  where
    here :
        check_links nodes x.inputs ≡ ok tt
        → Memᴰ n (x ∷ ns)
        → (Memᴰ n ns → check_links nodes n.inputs ≡ ok tt)
        → check_links nodes n.inputs ≡ ok tt
    here first (Memᴰ.head e) ih =
        subst (λ (y : Node). check_links nodes y.inputs ≡ ok tt) (sym e) first
    here first (Memᴰ.tail k) ih = ih k

-- Every input of a task of an accepted plan names a task of the plan and a declared output of it.
pub validate-links :
    (p : Plan) (n : Node) (f : String) (i : Input)
    → validate p ≡ ok tt
    → Memᴰ n p.tasks
    → Memᴰ (f, i) n.inputs
    → Provides p i
validate-links p n f i h m k =
    let a = accepted p h in
    let r = check_nodes_lem p.tasks a.nodes a.built in
    let checked = check_all_links_lem a.nodes p.tasks a.linked.1 n m in
    let (dep, at, out) = check_links_lem a.nodes n.inputs checked f i k in
    elim (r.origin i.task dep at) [
      | inl e ↦ cc (lookup-nil {V = Node} i.task, e)
      | inr (planned, same) ↦ (dep, planned, same, out)
    ]
