-- ===== src/Graph/Validate/Errors.antt =====
-- Which step of `Validate` (engine/ax/internal/taskgraph/model.go) an error comes from.
use task_a.Prelude.{
  String, Bool, true, false, not, ◌||◌, List, [], ◌∷◌, Map, lookup, keys, has_key, elem, any,
  Result, ok, err, ◌>>=◌, >>=-eq-err, reject, ◌≡◌, refl, arith, Option-cases, inl, inr,
}
use task_a.Graph.Model.{Plan, Node, Input}
use task_a.Graph.Names.{valid_name}
use task_a.Graph.Paths.{valid_path}
use task_a.Graph.Validate.Visit.{Error, header_required, visit_nodes}
use task_a.Graph.Validate.{
  check_files, check_inputs, check_validator_files, check_outputs, is_known, is_incomplete, has_nul,
  check_node, check_nodes, check_links, check_all_links, is_positive, is_nil, validate,
}

-- An error of the search for cycles.
abbrev pub of_search : Error → Bool
of_search (Error.dependency_cycle x) = true
of_search Error.out_of_fuel = true
of_search _ = false

-- Whatever error this is, it is none of the search.
record IsDirect {A : Type 0} (r : Result Error A) : Type 0 where
  errors : (e : Error) → r ≡ err e → of_search e ≡ false

module _ {A : Type 0} where
  IsDirect-ok : (a : A) → IsDirect (ok a)
  IsDirect-ok a = record { errors = λ e h. cc }

  IsDirect-reject :
      (b : Bool) (e : Error) (k : Result Error A)
      → of_search e ≡ false
      → IsDirect k
      → IsDirect (reject b e k)
  IsDirect-reject true e k h d = record { errors = λ x q. ground arith }
  IsDirect-reject false e k h d = d

module _ {A B : Type 0} where
  IsDirect-bind :
      (m : Result Error A) (f : A → Result Error B)
      → IsDirect m
      → ((a : A) → IsDirect (f a))
      → IsDirect (m >>= f)
  IsDirect-bind (ok a) f d k = k a
  IsDirect-bind (err e) f d k = record { errors = λ x q. d.errors x (cc) }

check_files-IsDirect : (fs seen : List String) → IsDirect (check_files fs seen)
unfolding check_files
check_files-IsDirect [] seen = IsDirect-ok seen
check_files-IsDirect (f ∷ fs) seen = IsDirect-reject _ _ _ refl (check_files-IsDirect fs (f ∷ seen))

check_inputs-IsDirect : (fs seen : List String) → IsDirect (check_inputs fs seen)
unfolding check_inputs
check_inputs-IsDirect [] seen = IsDirect-ok seen
check_inputs-IsDirect (f ∷ fs) seen =
    IsDirect-reject _ _ _ refl (check_inputs-IsDirect fs (f ∷ seen))

check_validator_files-IsDirect : (fs seen : List String) → IsDirect (check_validator_files fs seen)
unfolding check_validator_files
check_validator_files-IsDirect [] seen = IsDirect-ok tt
check_validator_files-IsDirect (f ∷ fs) seen =
    IsDirect-reject _ _ _ refl (check_validator_files-IsDirect fs seen)

check_outputs-IsDirect :
    (vfiles : Map String) (fs outs : List String) → IsDirect (check_outputs vfiles fs outs)
unfolding check_outputs
check_outputs-IsDirect vfiles [] outs = IsDirect-ok tt
check_outputs-IsDirect vfiles (f ∷ fs) outs =
    IsDirect-reject (not (valid_path f) || elem f outs) (Error.invalid_output f) _ refl (
      IsDirect-reject (has_key f vfiles) (Error.validator_overlaps_output f) _ refl
        (check_outputs-IsDirect vfiles fs (f ∷ outs)))

check_node-IsDirect : (n : Node) (nodes : Map Node) → IsDirect (check_node n nodes)
unfolding check_node
check_node-IsDirect n nodes =
    IsDirect-reject (not (valid_name n.id) || is_known n.id nodes) (Error.invalid_task n.id) _ refl
      (IsDirect-reject (is_incomplete n) (Error.incomplete_task n.id) _ refl (
        IsDirect-bind _ _ (check_files-IsDirect (keys n.files) []) λ seen.
          IsDirect-bind _ _ (check_inputs-IsDirect (keys n.inputs) seen) λ seen'.
            IsDirect-bind _ _ (check_validator_files-IsDirect (keys n.validator.files) seen') λ _.
              IsDirect-bind _ _ (check_outputs-IsDirect n.validator.files n.outputs []) λ _.
                IsDirect-reject (any has_nul n.command || any has_nul n.validator.command)
                  Error.nul_in_argv _ refl (IsDirect-ok _)))

check_nodes-IsDirect : (ns : List Node) (nodes : Map Node) → IsDirect (check_nodes ns nodes)
unfolding check_nodes
check_nodes-IsDirect [] nodes = IsDirect-ok nodes
check_nodes-IsDirect (n ∷ ns) nodes =
    IsDirect-bind _ _ (check_node-IsDirect n nodes) (λ nodes'. check_nodes-IsDirect ns nodes')

check_links-IsDirect : (nodes : Map Node) (is : Map Input) → IsDirect (check_links nodes is)
unfolding check_links
check_links-IsDirect nodes [] = IsDirect-ok tt
check_links-IsDirect nodes ((f, i) ∷ is) = elim (Option-cases (lookup i.task nodes)) [
  | inl e ↦ rw (e, check_links) (record { errors = λ x h. ground arith })
  | inr (dep, e) ↦
      rw (e, check_links)
        (IsDirect-reject (not (elem i.output dep.outputs)) (Error.missing_output i.task i.output) _
          refl (check_links-IsDirect nodes is))
]

check_all_links-IsDirect : (nodes : Map Node) (ns : List Node) → IsDirect (check_all_links nodes ns)
unfolding check_all_links
check_all_links-IsDirect nodes [] = IsDirect-ok tt
check_all_links-IsDirect nodes (n ∷ ns) =
    IsDirect-bind _ _ (check_links-IsDirect nodes n.inputs) (λ _. check_all_links-IsDirect nodes ns)

-- An error of the search comes from the search, over the map that the first loop built.
pub search_error :
    (p : Plan) (e : Error)
    → validate p ≡ err e
    → of_search e ≡ true
    → (nodes : Map Node) × (check_nodes p.tasks [] ≡ ok nodes) × (visit_nodes nodes ≡ err e)
unfolding validate
search_error p e h s =
    elim (>>=-eq-err (check_nodes p.tasks [])
      (λ nodes. check_all_links nodes p.tasks >>= λ _. visit_nodes nodes)
      (after_header (not (valid_name p.id) || not (is_positive p.revision) || is_nil p.tasks) h)) [
        | inl q ↦ cc ((check_nodes-IsDirect p.tasks []).errors e q)
        | inr (nodes, built, rest) ↦
            elim (>>=-eq-err (check_all_links nodes p.tasks) (λ _. visit_nodes nodes) rest) [
              | inl q ↦ cc ((check_all_links-IsDirect nodes p.tasks).errors e q)
              | inr (_, linked, last) ↦ (nodes, built, last)
            ]
      ]
  where
    after_header :
        {k : Result Error (Unit {0})} (b : Bool) → reject b header_required k ≡ err e → k ≡ err e
    after_header true q = cc
    after_header false q = q
