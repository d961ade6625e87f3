-- ===== src/Ax/Server.antt =====
-- The handlers of the AX server (engine/ax/internal/server/server.go) over any store. The store's
-- interface is engine/ax/internal/store/store.go; a request that is nil is `none`.
-- What the in-memory store marks as a panic is passed on within `internal`. `WatchTask` is left out.
pub mod Guarded
pub mod OnMemory
pub mod Created
use task_a.Prelude.{
  String, ℕ, ℤ, pos, negsuc, zero, suc, Bool, true, false, not, ◌||◌, List, [], ◌∷◌, Option, none,
  some, Result, ok, err, Exec, ◌==◌, if◌then◌else◌,
}
use task_a.Ax.Types.{
  ObjectMeta, Task, TaskSpec, TaskStatus, Resource, WorkspaceSpec, Invalid, meta_of, no_meta,
  no_status, validate_task, validate_workspace, validate_model,
}
use task_a.Ax.Memory.{StoreError, status_of}

-- The errors of gRPC that the handlers answer with.
pub data Status : Type 0 where
  missing_request : Status
  invalid_argument : Invalid → Status
  not_found_in : (name atespace : String) → Status
  already_exists : (name atespace : String) → Status
  internal : StoreError → Status

-- The operations of the store, in a world `W` that holds it. `Subscribe`, `WatchTask` and `Close` are
-- left out, as the callers of them are.
pub record Store (W R S M : Type 0) : Type 0 where
  pub save_task : Task R → Exec W StoreError (Task R)
  pub get_task : (atespace name : String) → Exec W StoreError (Task R)
  pub list_tasks : String → (limit offset : ℤ) → Exec W StoreError (List (Task R))
  pub update_task_status :
      (atespace name : String) → Option TaskStatus → Exec W StoreError (Unit {0})
  pub mark_task_deleting : (atespace name : String) → Exec W StoreError (Unit {0})
  pub delete_task : (atespace name : String) → Exec W StoreError (Unit {0})
  pub save_workspace : Resource (WorkspaceSpec S) → Exec W StoreError (Resource (WorkspaceSpec S))
  pub get_workspace : (atespace name : String) → Exec W StoreError (Resource (WorkspaceSpec S))
  pub list_workspaces : String → Exec W StoreError (List (Resource (WorkspaceSpec S)))
  pub delete_workspace : (atespace name : String) → Exec W StoreError (Unit {0})
  pub save_model : Resource M → Exec W StoreError (Resource M)
  pub get_model : (atespace name : String) → Exec W StoreError (Resource M)
  pub list_models : String → Exec W StoreError (List (Resource M))
  pub delete_model : (atespace name : String) → Exec W StoreError (Unit {0})

-- A request by atespace and name.
pub record Named : Type 0 where
  pub atespace : String
  pub name : String

pub record ListRequest : Type 0 where
  pub atespace : String
  pub limit : ℤ
  pub offset : ℤ

abbrev pub or_default : String → String
or_default a = if a == "" then "default" else a

-- errors.Is(err, store.ErrNotFound)
abbrev pub fault_of : (name atespace : String) → StoreError → Status
fault_of name atespace StoreError.not_found = not_found_in name atespace
fault_of name atespace e = internal e

module _ {W A : Type 0} where
  abbrev pub settle : Result StoreError A × W → Result Status A × W
  settle (ok a, w) = (ok a, w)
  settle (err e, w) = (err (internal e), w)

  -- A call whose error is `Internal`, whatever it is.
  abbrev pub internally : Exec W StoreError A → Exec W Status A
  internally m w = settle (m w)

  -- A call whose error may be that there is no such resource.
  abbrev pub by_name :
      ((atespace name : String) → Exec W StoreError A) → Option Named → Exec W Status A
  by_name m none w = (err missing_request, w)
  by_name m (some q) w =
      let a = or_default q.atespace in
      let (r, w') = m a q.name w in
      elim r [ ok x ↦ (ok x, w') | err e ↦ (err (fault_of q.name a e), w') ]

-- The creation time is kept where the request has one.
abbrev pub stamped : ℕ → ObjectMeta → ObjectMeta
stamped now m = elim m.creation_timestamp [
  | none ↦ record m { creation_timestamp = some now }
  | some t ↦ m
]

abbrev pub is_positive_limit : ℤ → Bool
is_positive_limit (pos zero) = false
is_positive_limit (pos (suc n)) = true
is_positive_limit (negsuc n) = false

abbrev pub limit_of : Option ListRequest → ℤ
limit_of none = pos 50
limit_of (some q) = if is_positive_limit q.limit then q.limit else pos 50

abbrev pub offset_of : Option ListRequest → ℤ
offset_of none = pos 0
offset_of (some q) = elim q.offset [ pos n ↦ pos n | negsuc n ↦ pos 0 ]

abbrev pub scope_of : Option ListRequest → String
scope_of none = ""
scope_of (some q) = q.atespace

module _ {W R S M : Type 0} (st : Store W R S M) (now : ℕ) where
  unfoldable pub get_task : Option Named → Exec W Status (Task R)
  get_task q = by_name st.get_task q

  unfoldable pub list_tasks : Option ListRequest → Exec W Status (List (Task R))
  list_tasks q = internally (st.list_tasks (scope_of q) (limit_of q) (offset_of q))

  -- The task as it is saved, its phase set.
  abbrev pub with_phase : String → Task R → Task R
  with_phase phase t = record t { status = some (record (status_of t.status) { phase = phase }) }

  abbrev pub new_task : Task R → Task R
  new_task t =
      let m = meta_of t.metadata in
      with_phase "Suspended"
        (record t { metadata = some (stamped now (record m { atespace = or_default m.atespace })) })

  -- The answer of the look-up: only not-found lets the task be saved.
  unfoldable pub create_after : Task R → Result StoreError (Task R) → Exec W Status (Task R)
  create_after t (ok old) w =
      (err (already_exists (meta_of t.metadata).name (or_default (meta_of t.metadata).atespace)), w)
  create_after t (err StoreError.not_found) w = internally (st.save_task (new_task t)) w
  create_after t (err e) w = (err (internal e), w)

  unfoldable pub create_task : Option (Task R) → Exec W Status (Task R)
  unfolding create_after
  create_task none w = (err missing_request, w)
  create_task (some t) w = elim (validate_task t) [
    | err e ↦ (err (invalid_argument e), w)
    | ok _ ↦
        let m = meta_of t.metadata in
        let (r, w') = st.get_task (or_default m.atespace) m.name w in create_after t r w'
  ]

  unfoldable pub delete_task : Option Named → Exec W Status (Unit {0})
  delete_task q = by_name st.mark_task_deleting q

  -- `SuspendTask` and `ResumeTask`: the task is read, its phase set, and saved.
  unfoldable pub set_phase : String → Option Named → Exec W Status (Task R)
  set_phase phase none w = (err missing_request, w)
  set_phase phase (some q) w =
      let (r, w') = by_name st.get_task (some q) w in
      elim r [ err e ↦ (err e, w') | ok t ↦ internally (st.save_task (with_phase phase t)) w' ]

  unfoldable pub suspend_task : Option Named → Exec W Status (Task R)
  unfolding set_phase
  suspend_task q = set_phase "Suspended" q

  unfoldable pub resume_task : Option Named → Exec W Status (Task R)
  unfolding set_phase
  resume_task q = set_phase "Running" q

  abbrev pub has_time : Option ℕ → Bool
  has_time none = false
  has_time (some t) = true

  -- `existing` answers nil on every error.
  abbrev pub created_before : {A : Type 0} → Result StoreError (Resource A) → Option ℕ
  created_before (ok x) = (meta_of x.metadata).creation_timestamp
  created_before (err e) = none

  -- The time of the request, or else of the resource that is replaced, or else now.
  abbrev pub time_of : Option ℕ → Option ℕ
  time_of none = some now
  time_of (some t) = some t

  unfoldable pub default_metadata :
      {A : Type 0}
      → Option ObjectMeta
      → ((atespace name : String) → Exec W StoreError (Resource A))
      → W
      → ObjectMeta × W
  default_metadata meta existing w =
      let m = meta_of meta in
      let m' = record m { atespace = or_default m.atespace } in
      elim m'.creation_timestamp [
        | some t ↦ (m', w)
        | none ↦
            let (r, w') = existing m'.atespace m'.name w in
            (record m' { creation_timestamp = time_of (created_before r) }, w')
      ]

  -- `UpdateWorkspace` and `UpdateModel`.
  abbrev pub update_resource :
      {A : Type 0}
      → (Resource A → Result Invalid (Unit {0}))
      → ((atespace name : String) → Exec W StoreError (Resource A))
      → (Resource A → Exec W StoreError (Resource A))
      → Option (Resource A)
      → Exec W Status (Resource A)
  update_resource validate existing save none w = (err missing_request, w)
  update_resource validate existing save (some x) w = elim (validate x) [
    | err e ↦ (err (invalid_argument e), w)
    | ok _ ↦
        let (m, w') = default_metadata x.metadata existing w in
        internally (save (record x { metadata = some m })) w'
  ]

  -- `DeleteWorkspace` and `DeleteModel`: an error is `Internal`.
  abbrev pub delete_by :
      ((atespace name : String) → Exec W StoreError (Unit {0}))
      → Option Named
      → Exec W Status (Unit {0})
  delete_by m none w = (err missing_request, w)
  delete_by m (some q) w = internally (m (or_default q.atespace) q.name) w

  unfoldable pub get_workspace : Option Named → Exec W Status (Resource (WorkspaceSpec S))
  get_workspace q = by_name st.get_workspace q

  -- The request's atespace, or none where the request is nil.
  unfoldable pub list_workspaces : Option String → Exec W Status (List (Resource (WorkspaceSpec S)))
  list_workspaces q = internally (st.list_workspaces (elim q [ none ↦ "" | some a ↦ a ]))

  unfoldable pub update_workspace :
      Option (Resource (WorkspaceSpec S)) → Exec W Status (Resource (WorkspaceSpec S))
  unfolding default_metadata
  update_workspace q = update_resource validate_workspace st.get_workspace st.save_workspace q

  unfoldable pub delete_workspace : Option Named → Exec W Status (Unit {0})
  delete_workspace q = delete_by st.delete_workspace q

  unfoldable pub get_model : Option Named → Exec W Status (Resource M)
  get_model q = by_name st.get_model q

  unfoldable pub list_models : Option String → Exec W Status (List (Resource M))
  list_models q = internally (st.list_models (elim q [ none ↦ "" | some a ↦ a ]))

  unfoldable pub update_model : Option (Resource M) → Exec W Status (Resource M)
  unfolding default_metadata
  update_model q = update_resource validate_model st.get_model st.save_model q

  unfoldable pub delete_model : Option Named → Exec W Status (Unit {0})
  delete_model q = delete_by st.delete_model q
