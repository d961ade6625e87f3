-- ===== src/Graph/Validate/Nodes.antt =====
-- What the checks of one node in `Validate` establish (engine/ax/internal/taskgraph/model.go).
use task_a.Prelude.{
  String, Bool, true, false, not, ◌||◌, List, [], ◌∷◌, Map, insert, has_key, keys, elem,
  elem-of_mem, any, ok, >>=-eq-ok, ok-injective, reject-eq-ok, ◌≡◌, refl, sym, eq_iff, Memᴰ, All,
  arith, subst,
}
use task_a.Graph.Model.{Node}
use task_a.Graph.Names.{valid_name}
use task_a.Graph.Paths.{valid_path}
use task_a.Graph.Paths.Codes.{codes}
use task_a.Graph.Paths.Safe.{IsSafe, valid_path_iff}
use task_a.Graph.Validate.{
  check_files, check_inputs, check_validator_files, check_outputs, is_known, is_incomplete, has_nul,
  check_node,
}

abbrev pub IsSafePath : String → Type 0
IsSafePath f = IsSafe (codes f)

-- No two entries of a list are equal.
abbrev pub IsDistinct : List String → Type 0
IsDistinct [] = Unit
IsDistinct (x ∷ xs) = ¬ Memᴰ x xs × IsDistinct xs

-- The two lists have no entry in common.
abbrev pub AreDisjoint : List String → List String → Type 0
AreDisjoint xs ys = (f : String) → Memᴰ f xs → Memᴰ f ys → ⊥

-- The files of a node lie below its working directory and do not get in one another's way.
pub record IsValidNode (n : Node) : Type 0 where
  pub named : valid_name n.id ≡ true
  pub safe_files : All IsSafePath (keys n.files)
  pub safe_inputs : All IsSafePath (keys n.inputs)
  pub safe_validator_files : All IsSafePath (keys n.validator.files)
  pub safe_outputs : All IsSafePath n.outputs
  pub inputs_apart : AreDisjoint (keys n.inputs) (keys n.files)
  pub validator_apart_files : AreDisjoint (keys n.validator.files) (keys n.files)
  pub validator_apart_inputs : AreDisjoint (keys n.validator.files) (keys n.inputs)
  pub validator_apart_outputs : AreDisjoint n.outputs (keys n.validator.files)
  pub distinct_outputs : IsDistinct n.outputs

safe_of_test : (f : String) → not (valid_path f) ≡ false → IsSafePath f
safe_of_test f h = (valid_path_iff f).0 (ground arith)

absent_of_test : (f : String) (seen : List String) → elem f seen ≡ false → ¬ Memᴰ f seen
absent_of_test f seen h m = cc (elem-of_mem f seen m)

or_false : (a b : Bool) → (a || b) ≡ false → (a ≡ false) × (b ≡ false)
or_false a b h = (ground arith, ground arith)

abbrev Within : List String → List String → Type 0
Within xs ys = (f : String) → Memᴰ f xs → Memᴰ f ys

Within-cons :
    (f : String) (fs seen seen' : List String)
    → Within fs seen'
    → Within (f ∷ seen) seen'
    → Within (f ∷ fs) seen'
Within-cons f fs seen seen' h k x (Memᴰ.head e) = k x (Memᴰ.head e)
Within-cons f fs seen seen' h k x (Memᴰ.tail m) = h x m

check_files_lem :
    (fs seen seen' : List String)
    → check_files fs seen ≡ ok seen'
    → All IsSafePath fs × Within fs seen' × Within seen seen'
unfolding check_files
check_files_lem [] seen seen' h = (tt, λ f m. elim m [ ], λ f m. subst (Memᴰ f) (ok-injective h) m)
check_files_lem (f ∷ fs) seen seen' h =
    let (good, rest) = reject-eq-ok (not (valid_path f)) _ _ h in
    let (safe, inside, old) = check_files_lem fs (f ∷ seen) seen' rest in
    (
      (safe_of_test f good, safe),
      Within-cons f fs seen seen' inside old,
      λ x m. old x (Memᴰ.tail m),
    )

check_inputs_lem :
    (fs seen seen' : List String)
    → check_inputs fs seen ≡ ok seen'
    → All IsSafePath fs × Within fs seen' × Within seen seen' × AreDisjoint fs seen
unfolding check_inputs
check_inputs_lem [] seen seen' h =
    (tt, λ f m. elim m [ ], λ f m. subst (Memᴰ f) (ok-injective h) m, λ f m. elim m [ ])
check_inputs_lem (f ∷ fs) seen seen' h =
    let (good, rest) = reject-eq-ok (not (valid_path f) || elem f seen) _ _ h in
    let (path, fresh) = or_false (not (valid_path f)) (elem f seen) good in
    let (safe, inside, old, apart) = check_inputs_lem fs (f ∷ seen) seen' rest in
    (
      (safe_of_test f path, safe),
      Within-cons f fs seen seen' inside old,
      λ x m. old x (Memᴰ.tail m),
      disjoint fresh apart,
    )
  where
    disjoint : elem f seen ≡ false → AreDisjoint fs (f ∷ seen) → AreDisjoint (f ∷ fs) seen
    disjoint fresh apart x (Memᴰ.head e) k =
        absent_of_test f seen fresh (subst (λ y. Memᴰ y seen) e k)
    disjoint fresh apart x (Memᴰ.tail m) k = apart x m (Memᴰ.tail k)

check_validator_files_lem :
    (fs seen : List String) {u : Unit {0}}
    → check_validator_files fs seen ≡ ok u
    → All IsSafePath fs × AreDisjoint fs seen
unfolding check_validator_files
check_validator_files_lem [] seen h = (tt, λ f m. elim m [ ])
check_validator_files_lem (f ∷ fs) seen h =
    let (good, rest) = reject-eq-ok (not (valid_path f) || elem f seen) _ _ h in
    let (path, fresh) = or_false (not (valid_path f)) (elem f seen) good in
    let (safe, apart) = check_validator_files_lem fs seen rest in
    ((safe_of_test f path, safe), disjoint fresh apart)
  where
    disjoint : elem f seen ≡ false → AreDisjoint fs seen → AreDisjoint (f ∷ fs) seen
    disjoint fresh apart x (Memᴰ.head e) k =
        absent_of_test f seen fresh (subst (λ y. Memᴰ y seen) e k)
    disjoint fresh apart x (Memᴰ.tail m) k = apart x m k

has_key-of_mem {ℓ} : {V : Type ℓ} (f : String) (m : Map V) → Memᴰ f (keys m) → has_key f m ≡ true
unfolding has_key
has_key-of_mem f [] k = elim k [ ]
has_key-of_mem f ((j, w) ∷ m) (Memᴰ.head e) = rw ((eq_iff j f).1 (sym e))
has_key-of_mem f ((j, w) ∷ m) (Memᴰ.tail k) = ground (arith, has_key-of_mem f m k)

check_outputs_lem :
    (vfiles : Map String) (fs outs : List String) {u : Unit {0}}
    → check_outputs vfiles fs outs ≡ ok u
    → All IsSafePath fs × AreDisjoint fs (keys vfiles) × IsDistinct fs × AreDisjoint fs outs
unfolding check_outputs
check_outputs_lem vfiles [] outs h = (tt, λ f m. elim m [ ], tt, λ f m. elim m [ ])
check_outputs_lem vfiles (f ∷ fs) outs h =
    let (good, h₁) = reject-eq-ok (not (valid_path f) || elem f outs) _ _ h in
    let (path, fresh) = or_false (not (valid_path f)) (elem f outs) good in
    let (clear, rest) = reject-eq-ok (has_key f vfiles) _ _ h₁ in
    let (safe, apart, distinct, new) = check_outputs_lem vfiles fs (f ∷ outs) rest in
    (
      (safe_of_test f path, safe),
      off_validator clear apart,
      (λ m. new f m (Memᴰ.head refl), distinct),
      off_seen fresh new,
    )
  where
    off_validator :
        has_key f vfiles ≡ false → AreDisjoint fs (keys vfiles) → AreDisjoint (f ∷ fs) (keys vfiles)
    off_validator clear apart x (Memᴰ.head e) k =
        cc (clear, has_key-of_mem f vfiles (subst (λ y. Memᴰ y (keys vfiles)) e k))
    off_validator clear apart x (Memᴰ.tail m) k = apart x m k

    off_seen : elem f outs ≡ false → AreDisjoint fs (f ∷ outs) → AreDisjoint (f ∷ fs) outs
    off_seen fresh new x (Memᴰ.head e) k =
        absent_of_test f outs fresh (subst (λ y. Memᴰ y outs) e k)
    off_seen fresh new x (Memᴰ.tail m) k = new x m (Memᴰ.tail k)

pub check_node_lem :
    (n : Node) (nodes nodes' : Map Node)
    → check_node n nodes ≡ ok nodes'
    → IsValidNode n × (is_known n.id nodes ≡ false) × (nodes' ≡ insert n.id n nodes)
unfolding check_node
check_node_lem n nodes nodes' h =
    let (name, h₁) = reject-eq-ok (not (valid_name n.id) || is_known n.id nodes) _ _ h in
    let (named, fresh) = or_false (not (valid_name n.id)) (is_known n.id nodes) name in
    let (_, h₂) = reject-eq-ok (is_incomplete n) _ _ h₁ in
    let (seen, files, h₃) = >>=-eq-ok (check_files (keys n.files) []) _ h₂ in
    let (seen', inputs, h₄) = >>=-eq-ok (check_inputs (keys n.inputs) seen) _ h₃ in
    let (_, vfiles, h₅) = >>=-eq-ok (check_validator_files (keys n.validator.files) seen') _ h₄ in
    let (_, outs, h₆) = >>=-eq-ok (check_outputs n.validator.files n.outputs []) _ h₅ in
    let (_, last) =
      reject-eq-ok (any has_nul n.command || any has_nul n.validator.command) _ _ h₆ in
    let (sf, in_seen, _) = check_files_lem (keys n.files) [] seen files in
    let (si, in_seen', kept, apart) = check_inputs_lem (keys n.inputs) seen seen' inputs in
    let (sv, v_apart) = check_validator_files_lem (keys n.validator.files) seen' vfiles in
    let (so, o_apart, distinct, _) = check_outputs_lem n.validator.files n.outputs [] outs in
    (
      record {
        named = ground arith;
        safe_files = sf;
        safe_inputs = si;
        safe_validator_files = sv;
        safe_outputs = so;
        inputs_apart = λ f m k. apart f m (in_seen f k);
        validator_apart_files = λ f m k. v_apart f m (kept f (in_seen f k));
        validator_apart_inputs = λ f m k. v_apart f m (in_seen' f k);
        validator_apart_outputs = o_apart;
        distinct_outputs = distinct;
      },
      fresh,
      sym (ok-injective last),
    )
