-- ===== src/Graph/Validate/Visit.antt =====
-- The depth-first search for dependency cycles in `Validate`
-- (engine/ax/internal/taskgraph/model.go), and the errors of `Validate`.
use task_a.Prelude.{
  String, ℕ, zero, suc, Bool, true, false, List, [], ◌∷◌, Map, lookup, insert, keys, none, some,
  Result, ok, err, ◌>>=◌, length, if◌then◌else◌,
}
use task_a.Graph.Model.{Node, Input}

pub data Error : Type 0 where
  header_required nul_in_argv : Error
  invalid_task incomplete_task invalid_file invalid_input validator_overlaps_input : String → Error
  invalid_output validator_overlaps_output missing_dependency dependency_cycle : String → Error
  missing_output : String → String → Error
  -- no error of the source: the search is bounded by a number
  out_of_fuel : Error

-- The maps `visiting` and `done`.
pub record Marks : Type 0 where
  pub visiting : Map Bool
  pub done : Map Bool

-- A missing key reads as `false`.
unfoldable pub is_set : String → Map Bool → Bool
is_set k m = elim (lookup k m) [ none ↦ false | some b ↦ b ]

abbrev pub input_tasks : Map Input → List String
input_tasks [] = []
input_tasks ((f, i) ∷ is) = i.task ∷ input_tasks is

-- nodes[id].Inputs: a missing node has no inputs.
unfoldable pub deps_of : Map Node → String → List String
deps_of nodes id = elim (lookup id nodes) [ none ↦ [] | some n ↦ input_tasks n.inputs ]

unfoldable pub visit_all :
    (String → Marks → Result Error Marks) → List String → Marks → Result Error Marks
visit_all v [] m = ok m
visit_all v (d ∷ ds) m = v d m >>= λ m'. visit_all v ds m'

abbrev pub enter : String → Marks → Marks
enter id m = record m { visiting = insert id true m.visiting }

abbrev pub leave : String → Marks → Marks
leave id m = record { visiting = insert id false m.visiting; done = insert id true m.done }

unfoldable pub visit : ℕ → Map Node → String → Marks → Result Error Marks
visit zero nodes id m = err out_of_fuel
visit (suc fuel) nodes id m =
    if is_set id m.visiting
    then err (dependency_cycle id)
    else if is_set id m.done
    then ok m
    else (visit_all (visit fuel nodes) (deps_of nodes id) (enter id m) >>= λ m'. ok (leave id m'))

-- for id := range nodes; the stack of open visits never holds a node twice.
unfoldable pub visit_nodes : Map Node → Result Error (Unit {0})
visit_nodes nodes =
    visit_all (visit (suc (length nodes)) nodes) (keys nodes) (record { visiting = []; done = [] })
    >>= λ _. ok tt
