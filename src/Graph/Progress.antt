-- ===== src/Graph/Progress.antt =====
-- `Complete` and `Files` of engine/ax/internal/taskgraph/model.go.
use task_a.Prelude.{
  String, Bool, true, false, List, [], ◌∷◌, Map, lookup, insert, Option, none, some, if◌then◌else◌,
}
use task_a.Graph.Model.{Phase, Attempt, State, Node, Input, succeeded}

unfoldable pub is_succeeded : Phase → Bool
is_succeeded succeeded = true
is_succeeded _ = false

-- a == nil || a.Phase != "succeeded", negated
unfoldable pub has_succeeded : String → Map Attempt → Bool
unfolding is_succeeded
has_succeeded id attempts = elim (lookup id attempts) [
  | none ↦ false
  | some a ↦ is_succeeded a.phase
]

unfoldable pub all_succeeded : List Node → Map Attempt → Bool
all_succeeded [] attempts = true
all_succeeded (n ∷ ns) attempts =
    let rest = all_succeeded ns attempts in if has_succeeded n.id attempts then rest else false

unfoldable pub complete : State → Bool
complete s = if s.paused then false else all_succeeded s.plan.tasks s.attempts

-- for k, v := range m { f[k] = v }
unfoldable pub insert_all : Map String → Map String → Map String
insert_all [] f = f
insert_all ((k, v) ∷ m) f = insert_all m (insert k v f)

-- The output of a task that succeeded.
unfoldable pub output_of : Map Attempt → Input → Option String
unfolding is_succeeded
output_of attempts i = elim (lookup i.task attempts) [
  | none ↦ none
  | some a ↦ if is_succeeded a.phase then lookup i.output a.outputs else none
]

-- for k, i := range n.Inputs
unfoldable pub add_inputs : Map Attempt → Map Input → Map String → Option (Map String)
add_inputs attempts [] f = some f
add_inputs attempts ((k, i) ∷ is) f = elim (output_of attempts i) [
  | none ↦ none
  | some v ↦ add_inputs attempts is (insert k v f)
]

-- `none` is the pair (nil, false).
unfoldable pub files_of : State → Node → Option (Map String)
files_of s n = add_inputs s.attempts n.inputs (insert_all n.files [])
