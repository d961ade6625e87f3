-- ===== src/Ax/Types/Distinct.antt =====
-- What `ValidateTask` accepts (engine/ax/pkg/apis/v1alpha1/types.go).
use task_a.Prelude.{
  String, ℕ, suc, false, not, ◌&&◌, List, [], ◌∷◌, map, elem, Memᴰ, Option, none, some, ok,
  reject-eq-ok, >>=-eq-ok, ◌==◌, ◌≡◌, ◌≢◌, All, arith, eq_iff,
}
use task_a.Graph.Validate.Nodes.{IsDistinct}
use task_a.Ax.Types.{
  WorkspaceRef, Task, TaskSpec, check_refs, mount_of, workspace_refs, validate_task,
  validate_object_meta, is_absolute,
}

abbrev pub ref_name : WorkspaceRef → String
ref_name r = r.name

-- A binding by name, at an absolute path or at the default one.
abbrev pub IsBound : WorkspaceRef → Type 0
IsBound r = (r.name ≢ "") × (not (r.path == "") && not (is_absolute r.path) ≡ false)

-- The two lists of a loop that refuses what it has seen.
abbrev AvoidsAll : List String → List String → Type 0
AvoidsAll xs seen = All (λ x. elem x seen ≡ false) xs

avoids_tail : (x : String) (xs seen : List String) → AvoidsAll xs (x ∷ seen) → AvoidsAll xs seen
avoids_tail x [] seen h = tt
avoids_tail x (y ∷ xs) seen h = (ground (arith, h.0), avoids_tail x xs seen h.1)

avoids_head : (x : String) (xs seen : List String) → AvoidsAll xs (x ∷ seen) → ¬ Memᴰ x xs
avoids_head x [] seen h k = elim k [ ]
avoids_head x (y ∷ xs) seen h (Memᴰ.head e) = ground (arith, h.0, e, eq_iff y x, eq_iff x y)
avoids_head x (y ∷ xs) seen h (Memᴰ.tail k) = avoids_head x xs seen h.1 k

check_refs_lem :
    (i : ℕ) (names seen : List String) (rs : List WorkspaceRef) {u : Unit {0}}
    → check_refs i names seen rs ≡ ok u
    → All IsBound rs
      × (AvoidsAll (map ref_name rs) names × IsDistinct (map ref_name rs))
      × (AvoidsAll (map mount_of rs) seen × IsDistinct (map mount_of rs))
unfolding check_refs
check_refs_lem i names seen [] h = (tt, (tt, tt), (tt, tt))
check_refs_lem i names seen (r ∷ rs) h =
    let (named, h₁) = reject-eq-ok (r.name == "") _ _ h in
    let (once, h₂) = reject-eq-ok (elem r.name names) _ _ h₁ in
    let (placed, h₃) = reject-eq-ok (not (r.path == "") && not (is_absolute r.path)) _ _ h₂ in
    let (free, h₄) = reject-eq-ok (elem (mount_of r) seen) _ _ h₃ in
    let (bound, (an, dn), (am, dm)) =
      check_refs_lem (suc i) (r.name ∷ names) (mount_of r ∷ seen) rs h₄ in
    let some_name : r.name ≢ "" = λ e. ground (arith, named, e, eq_iff r.name "") in
    (
      ((some_name, placed), bound),
      (
        (once, avoids_tail r.name (map ref_name rs) names an),
        (avoids_head r.name (map ref_name rs) names an, dn),
      ),
      (
        (free, avoids_tail (mount_of r) (map mount_of rs) seen am),
        (avoids_head (mount_of r) (map mount_of rs) seen am, dm),
      ),
    )

-- A task that `ValidateTask` accepts binds each workspace by a name, at most once, at an absolute path
-- where it names one, and no two workspaces are mounted at one path, trailing slashes aside.
pub validate_task-IsDistinct :
    {R : Type 0} (t : Task R)
    → validate_task t ≡ ok tt
    → All IsBound (workspace_refs t.spec)
      × IsDistinct (map ref_name (workspace_refs t.spec))
      × IsDistinct (map mount_of (workspace_refs t.spec))
unfolding validate_task workspace_refs
validate_task-IsDistinct {R = R} t h =
    let (_, _, h₁) = >>=-eq-ok (validate_object_meta t.metadata) _ h in of_spec t.spec h₁
  where
    of_spec :
        (o : Option (TaskSpec R)) {u : Unit {0}}
        → (elim o [ none ↦ ok tt | some s ↦ check_refs 0 [] [] (workspace_refs (some s)) ]) ≡ ok u
        → All IsBound (workspace_refs o)
          × IsDistinct (map ref_name (workspace_refs o))
          × IsDistinct (map mount_of (workspace_refs o))
    of_spec none e = (tt, tt, tt)
    of_spec (some s) e =
        let (bound, (_, names), (_, mounts)) = check_refs_lem 0 [] [] (workspace_refs (some s)) e in
        (bound, names, mounts)
