-- ===== src/Graph/Validate.antt =====
-- `Validate` of engine/ax/internal/taskgraph/model.go. A set of texts (`map[string]bool` that only
-- gets `true`) is a list; a map is walked in the order of its entries.
pub mod Visit
pub mod Cycles
pub mod Bound
pub mod Nodes
pub mod Registry
pub mod Sound
pub mod Errors
pub mod Acyclic
use task_a.Prelude.{
  String, ℤ, pos, negsuc, ℕ, suc, Bool, true, false, not, ◌&&◌, ◌||◌, List, [], ◌∷◌, ◌++◌, Map,
  lookup, insert, has_key, keys, any, elem, Option, none, some, Result, ok, err, ◌>>=◌, reject,
  ◌==◌, nat_eq, length,
}
use task_a.Graph.Model.{Plan, Node, Input}
use task_a.Graph.Paths.{valid_path}
use task_a.Graph.Paths.Codes.{codes}
use task_a.Graph.Names.{valid_name, valid_image}
use task_a.Graph.Validate.Visit.{Error, header_required}

-- for f := range n.Files
unfoldable pub check_files : List String → List String → Result Error (List String)
check_files [] seen = ok seen
check_files (f ∷ fs) seen =
    reject (not (valid_path f)) (Error.invalid_file f) (check_files fs (f ∷ seen))

-- for f := range n.Inputs
unfoldable pub check_inputs : List String → List String → Result Error (List String)
check_inputs [] seen = ok seen
check_inputs (f ∷ fs) seen =
    reject (not (valid_path f) || elem f seen) (Error.invalid_input f) (check_inputs fs (f ∷ seen))

-- for f := range n.Validator.Files
unfoldable pub check_validator_files : List String → List String → Result Error (Unit {0})
check_validator_files [] seen = ok tt
check_validator_files (f ∷ fs) seen =
    reject (not (valid_path f) || elem f seen) (Error.validator_overlaps_input f)
      (check_validator_files fs seen)

-- for _, f := range n.Outputs
unfoldable pub check_outputs : Map String → List String → List String → Result Error (Unit {0})
check_outputs vfiles [] outs = ok tt
check_outputs vfiles (f ∷ fs) outs =
    reject (not (valid_path f) || elem f outs) (Error.invalid_output f) (
      reject (has_key f vfiles) (Error.validator_overlaps_output f)
        (check_outputs vfiles fs (f ∷ outs)))

abbrev pub has_nul : String → Bool
has_nul arg = any (λ c. nat_eq c 0) (codes arg)

abbrev pub is_nil {ℓ} : {A : Type ℓ} → List A → Bool
is_nil [] = true
is_nil (x ∷ xs) = false

-- A node lacks one of its required parts.
abbrev pub is_incomplete : Node → Bool
is_incomplete n =
    n.goal == ""
    || n.contract == ""
    || not (valid_image n.image)
    || is_nil n.command
    || is_nil n.outputs
    || not (valid_image n.validator.image)
    || is_nil n.validator.command

-- nodes[n.ID].ID != "": the zero value of a missing node has no id.
abbrev pub is_known : String → Map Node → Bool
is_known id nodes = elim (lookup id nodes) [ none ↦ false | some n ↦ not (n.id == "") ]

unfoldable pub check_node : Node → Map Node → Result Error (Map Node)
check_node n nodes =
    reject (not (valid_name n.id) || is_known n.id nodes) (Error.invalid_task n.id) (
      reject (is_incomplete n) (Error.incomplete_task n.id) (
        check_files (keys n.files) [] >>= λ seen. check_inputs (keys n.inputs) seen >>= λ seen'.
        check_validator_files (keys n.validator.files) seen' >>= λ _.
        check_outputs n.validator.files n.outputs [] >>= λ _.
        reject (any has_nul n.command || any has_nul n.validator.command) Error.nul_in_argv
          (ok (insert n.id n nodes))))

-- for _, n := range p.Tasks, the first loop
unfoldable pub check_nodes : List Node → Map Node → Result Error (Map Node)
check_nodes [] nodes = ok nodes
check_nodes (n ∷ ns) nodes = check_node n nodes >>= λ nodes'. check_nodes ns nodes'

-- for _, i := range n.Inputs, in the second loop
unfoldable pub check_links : Map Node → Map Input → Result Error (Unit {0})
check_links nodes [] = ok tt
check_links nodes ((f, i) ∷ is) = elim (lookup i.task nodes) [
  | none ↦ err (Error.missing_dependency i.task)
  | some dep ↦
      reject (not (elem i.output dep.outputs)) (Error.missing_output i.task i.output)
        (check_links nodes is)
]

unfoldable pub check_all_links : Map Node → List Node → Result Error (Unit {0})
check_all_links nodes [] = ok tt
check_all_links nodes (n ∷ ns) = check_links nodes n.inputs >>= λ _. check_all_links nodes ns

abbrev pub is_positive : ℤ → Bool
is_positive (pos n) = not (nat_eq n 0)
is_positive (negsuc n) = false

unfoldable pub validate : Plan → Result Error (Unit {0})
validate p =
    reject (not (valid_name p.id) || not (is_positive p.revision) || is_nil p.tasks) header_required
      (check_nodes p.tasks [] >>= λ nodes.
        check_all_links nodes p.tasks >>= λ _. Visit.visit_nodes nodes)
