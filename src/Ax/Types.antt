-- ===== src/Ax/Types.antt =====
-- The resources of AX and their validation (engine/ax/pkg/apis/v1alpha1/types.go, with the messages of
-- ax.proto). A message pointer that may be nil is an `Option`; a timestamp is a number.
-- The approval and usage of a status are left out: nothing here reads or changes them.
pub mod Distinct
use Prim.Native.String.{◌++◌}
use task_a.Prelude.{
  String, ℕ, suc, ℤ, code, Bool, true, false, not, ◌&&◌, ◌||◌, List, [], ◌∷◌, Map, lookup, insert,
  elem, all, Option, none, some, Result, ok, err, reject, ◌>>=◌, ◌==◌, ltb, leb, nat_eq, length,
  if◌then◌else◌,
}
use task_a.Graph.Paths.Codes.{codes}

pub record ObjectMeta : Type 0 where
  pub name : String
  pub atespace : String
  pub creation_timestamp : Option ℕ

pub record WorkspaceRef : Type 0 where
  pub name : String
  pub path : String
  pub goal : String

pub record EnvVar : Type 0 where
  pub name : String
  pub value : String

-- `R` is the type of the resource requests, which no code here reads.
pub record TaskSpec (R : Type 0) : Type 0 where
  pub image : String
  pub command : List String
  pub env : List EnvVar
  pub resources : R
  pub workspaces : List (Option WorkspaceRef)
  pub debug : Bool

pub record Condition : Type 0 where
  pub type : String
  pub status : String
  pub last_transition_time : Option ℕ
  pub reason : String
  pub message : String

pub record TaskStatus : Type 0 where
  pub phase : String
  pub id : String
  pub actor : String
  pub worker_ip : String
  pub conditions : List Condition

pub record Task (R : Type 0) : Type 0 where
  pub api_version : String
  pub kind : String
  pub metadata : Option ObjectMeta
  pub spec : Option (TaskSpec R)
  pub status : Option TaskStatus

-- A workspace or a model: the code here treats them alike, but for a workspace's files.
pub record Resource (S : Type 0) : Type 0 where
  pub api_version : String
  pub kind : String
  pub metadata : Option ObjectMeta
  pub spec : Option S

pub record File : Type 0 where
  pub path : String
  pub content : String

-- `R` is the type of the other parts of the specification.
pub record WorkspaceSpec (R : Type 0) : Type 0 where
  pub files : List (Option File)
  pub rest : R

abbrev pub no_meta : ObjectMeta
no_meta = record { name = ""; atespace = ""; creation_timestamp = none }

abbrev pub no_status : TaskStatus
no_status = record { phase = ""; id = ""; actor = ""; worker_ip = ""; conditions = [] }

-- `GetMetadata`, whose getters read a nil pointer as the empty message
abbrev pub meta_of : Option ObjectMeta → ObjectMeta
meta_of none = no_meta
meta_of (some m) = m

pub data Invalid : Type 0 where
  empty_name : Invalid
  no_label bound_name path_taken : String → Invalid
  file_path_required workspace_name_required : ℕ → Invalid
  path_not_absolute : ℕ → String → Invalid

abbrev pub is_alphanumeric : ℕ → Bool
is_alphanumeric c = (leb 97 c && leb c 122) || (leb 48 c && leb c 57)

-- The last character is alphanumeric.
abbrev pub ends_label : List ℕ → Bool
ends_label [] = false
ends_label (c ∷ []) = is_alphanumeric c
ends_label (c ∷ d ∷ cs) = ends_label (d ∷ cs)

-- ^[a-z0-9]([-a-z0-9]*[a-z0-9])?$
unfoldable pub is_label : List ℕ → Bool
is_label [] = false
is_label (c ∷ cs) =
    is_alphanumeric c && all (λ d. is_alphanumeric d || nat_eq d 45) cs && ends_label (c ∷ cs)

unfoldable pub validate_name : String → Result Invalid (Unit {0})
unfolding is_label
validate_name s =
    reject (s == "") Invalid.empty_name
      (reject (ltb 63 (length (codes s)) || not (is_label (codes s))) (Invalid.no_label s) (ok tt))

unfoldable pub validate_object_meta : Option ObjectMeta → Result Invalid (Unit {0})
unfolding validate_name
validate_object_meta m = validate_name (meta_of m).name >>= λ _.
    if not ((meta_of m).atespace == "") then validate_name (meta_of m).atespace else ok tt

unfoldable pub check_workspace_files : ℕ → List (Option File) → Result Invalid (Unit {0})
check_workspace_files i [] = ok tt
check_workspace_files i (f ∷ fs) =
    reject (elim f [ none ↦ true | some x ↦ x.path == "" ]) (Invalid.file_path_required i)
      (check_workspace_files (suc i) fs)

unfoldable pub validate_workspace :
    {R : Type 0} → Resource (WorkspaceSpec R) → Result Invalid (Unit {0})
unfolding validate_object_meta check_workspace_files
validate_workspace w = validate_object_meta w.metadata >>= λ _. elim w.spec [
  | none ↦ ok tt
  | some s ↦ check_workspace_files 0 s.files
]

unfoldable pub validate_model : {S : Type 0} → Resource S → Result Invalid (Unit {0})
unfolding validate_object_meta
validate_model m = validate_object_meta m.metadata

-- The non-nil entries, in their order.
unfoldable pub some_refs : List (Option WorkspaceRef) → List WorkspaceRef
some_refs [] = []
some_refs (none ∷ rs) = some_refs rs
some_refs (some r ∷ rs) = r ∷ some_refs rs

unfoldable pub workspace_refs : {R : Type 0} → Option (TaskSpec R) → List WorkspaceRef
unfolding some_refs
workspace_refs none = []
workspace_refs (some s) = some_refs s.workspaces

-- An entry of `WorkspacePaths`.
unfoldable pub workspace_path : WorkspaceRef → String
workspace_path r = if not (r.path == "") then r.path else "/workspace/" ++ r.name

-- strings.TrimRight(s, "/")
unfoldable pub trim_right : String → String
trim_right String.[] = ""
trim_right (String.◌∷◌ c s) =
    let rest = trim_right s in if nat_eq (code c) 47 && rest == "" then "" else String.◌∷◌ c rest

abbrev pub is_absolute : String → Bool
is_absolute String.[] = false
is_absolute (String.◌∷◌ c s) = nat_eq (code c) 47

-- The path that is compared: "/" where nothing is left.
unfoldable pub mount_of : WorkspaceRef → String
unfolding trim_right workspace_path
mount_of r = let p = trim_right (workspace_path r) in if p == "" then "/" else p

-- The loop of `ValidateTask`; of the map `seen` only the keys decide.
unfoldable pub check_refs :
    ℕ → List String → List String → List WorkspaceRef → Result Invalid (Unit {0})
check_refs i names seen [] = ok tt
check_refs i names seen (r ∷ rs) = reject (r.name == "") (Invalid.workspace_name_required i) (
    reject (elem r.name names) (Invalid.bound_name r.name) (
      reject (not (r.path == "") && not (is_absolute r.path)) (Invalid.path_not_absolute i r.path) (
        reject (elem (mount_of r) seen) (Invalid.path_taken (mount_of r))
          (check_refs (suc i) (r.name ∷ names) (mount_of r ∷ seen) rs))))

unfoldable pub validate_task : {R : Type 0} → Task R → Result Invalid (Unit {0})
unfolding validate_object_meta check_refs workspace_refs
validate_task t = validate_object_meta t.metadata >>= λ _. elim t.spec [
  | none ↦ ok tt
  | some s ↦ check_refs 0 [] [] (workspace_refs (some s))
]
