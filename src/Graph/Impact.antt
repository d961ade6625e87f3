-- ===== src/Graph/Impact.antt =====
-- `Impact` of engine/ax/internal/taskgraph/model.go: which tasks of the next plan are to run again.
-- `Digest` is a parameter. The set `affected` is the list of its members.
pub mod Spread
pub mod Exact
use Prim.Native.String.{compare}
use Prim.Native.Nat.{Ordering}
use task_a.Prelude.{
  String, ℕ, zero, suc, Bool, true, false, not, ◌&&◌, List, [], ◌∷◌, Map, lookup, insert, elem,
  Option, none, some, length, if◌then◌else◌, ◌==◌,
}
use task_a.Graph.Model.{Plan, Node, Input}

-- affected[id] = true
abbrev pub mark : String → List String → List String
mark id a = if elem id a then a else id ∷ a

-- if affected[i.Task] && !affected[n.ID] { … }, with the flag `changed`
unfoldable pub spread_input : String → Input → List String × Bool → List String × Bool
spread_input id i (a, changed) =
    if elem i.task a && not (elem id a) then (id ∷ a, true) else (a, changed)

unfoldable pub spread_inputs : String → Map Input → List String × Bool → List String × Bool
spread_inputs id [] s = s
spread_inputs id ((f, i) ∷ is) s = spread_inputs id is (spread_input id i s)

-- The body of the loop: one pass over the tasks.
unfoldable pub spread_nodes : List Node → List String × Bool → List String × Bool
spread_nodes [] s = s
spread_nodes (n ∷ ns) s = spread_nodes ns (spread_inputs n.id n.inputs s)

-- for changed := true; changed; { … }
unfoldable pub spread : ℕ → List Node → List String → Option (List String)
spread zero ns a = none
spread (suc fuel) ns a =
    let (a', changed) = spread_nodes ns (a, false) in
    let again = spread fuel ns a' in if changed then again else some a'

-- sort.Strings
unfoldable pub insert_sorted : String → List String → List String
insert_sorted s [] = s ∷ []
insert_sorted s (t ∷ ts) = elim (compare s t) [
  | Ordering.gt ↦ t ∷ insert_sorted s ts
  | _ ↦ s ∷ t ∷ ts
]

unfoldable pub sort : List String → List String
unfolding insert_sorted
sort [] = []
sort (s ∷ ss) = insert_sorted s (sort ss)

module _ (digest : Node → String) where
  -- prior[n.ID] = Digest(n)
  unfoldable pub prior_digests : List Node → Map String → Map String
  prior_digests [] prior = prior
  prior_digests (n ∷ ns) prior = prior_digests ns (insert n.id (digest n) prior)

  -- prior[n.ID] != Digest(n), where a missing key reads as ""
  abbrev pub differs : Map String → Node → Bool
  differs prior n = elim (lookup n.id prior) [
    | none ↦ not ("" == digest n)
    | some d ↦ not (d == digest n)
  ]

  unfoldable pub mark_changed : Map String → List Node → List String → List String
  mark_changed prior [] a = a
  mark_changed prior (n ∷ ns) a = mark_changed prior ns (if differs prior n then mark n.id a else a)

  -- A pass that changes anything marks one more task, so one pass more than there are tasks is
  -- enough.
  unfoldable pub impact : Plan → Plan → Option (List String)
  impact old next =
      let start = mark_changed (prior_digests old.tasks []) next.tasks [] in
      elim (spread (suc (length next.tasks)) next.tasks start) [
        | none ↦ none
        | some a ↦ some (sort a)
      ]
