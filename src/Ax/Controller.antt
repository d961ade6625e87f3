-- ===== src/Ax/Controller.antt =====
-- The controller (engine/ax/internal/controller): the reconciler of a task, over the client of
-- Substrate, and the worker's handling of one event, over any store.
pub mod Conditions
use Prim.Native.String.{◌++◌}
use task_a.Prelude.{
  String, ℕ, Bool, true, false, not, ◌||◌, List, [], ◌∷◌, Option, none, some, Result, ok, err, Exec,
  ◌==◌, if◌then◌else◌,
}
use task_a.Ax.Types.{
  ObjectMeta, Task, TaskSpec, TaskStatus, Condition, Resource, WorkspaceSpec, WorkspaceRef, meta_of,
  workspace_refs,
}
use task_a.Ax.Memory.{StoreError, TaskEvent, status_of}
use task_a.Ax.Server.{Store, or_default}

-- The first condition of the type is overwritten, or one is added at the end.
unfoldable pub put_condition : Condition → List Condition → List Condition
put_condition c [] = c ∷ []
put_condition c (d ∷ ds) =
    let rest = put_condition c ds in if d.type == c.type then c ∷ ds else d ∷ rest

-- The first condition of the type decides.
unfoldable pub is_true : String → List Condition → Bool
is_true type [] = false
is_true type (c ∷ cs) =
    let rest = is_true type cs in if c.type == type then c.status == "True" else rest

-- A name of a template, with its atespace.
pub record Template : Type 0 where
  pub atespace : String
  pub name : String

-- The calls of the Substrate client that the reconciler makes. `ensure_template` is the call with the
-- environment that is made from the task and its workspaces; `poll` is the wait for the workspace at a
-- worker's address, which answers whether it reported ready in time.
pub record Substrate (W R S : Type 0) : Type 0 where
  pub ensure_atespace : String → Exec W String (Unit {0})
  pub ensure_template :
      Template → Task R → List (Resource (WorkspaceSpec S)) → Exec W String (Option Template)
  pub ensure_actor : (atespace actor : String) → Template → Exec W String (Unit {0})
  pub suspend_actor : (atespace actor : String) → Exec W String (Unit {0})
  pub resume_actor : (atespace actor : String) → Exec W String String
  pub poll : (worker_ip : String) → W → Bool × W
  pub delete_actor : (atespace actor : String) → Exec W String (Unit {0})
  pub delete_templates : (atespace task : String) → Exec W String (Unit {0})

-- A task whose status is not nil, as `prepare` leaves it: `Reconcile` writes through the status only after
-- that, and `setCondition` would panic on a nil one. The status of `task` is not read.
pub record Prepared (R : Type 0) : Type 0 where
  pub task : Task R
  pub status : TaskStatus

module _ {R : Type 0} where
  -- The task, with its status.
  abbrev pub as_task : Prepared R → Task R
  as_task t = record t.task { status = some t.status }

  abbrev pub with_status : (TaskStatus → TaskStatus) → Prepared R → Prepared R
  with_status f t = record t { status = f t.status }

  abbrev pub conditions_of : Prepared R → List Condition
  conditions_of t = t.status.conditions

  abbrev pub phase_of : Prepared R → String
  phase_of t = t.status.phase

  unfoldable pub set_condition : (type status reason message : String) → ℕ → Prepared R → Prepared R
  unfolding put_condition
  set_condition type status reason message now t =
      with_status
        (λ s. record s {
          conditions =
              put_condition
                (record {
                  type = type;
                  status = status;
                  last_transition_time = some now;
                  reason = reason;
                  message = message;
                })
                s.conditions;
        })
        t

  unfoldable pub condition_true : String → Prepared R → Bool
  unfolding is_true
  condition_true type t = is_true type (conditions_of t)

  unfoldable pub set_not_ready : (reason message : String) → ℕ → Prepared R → Prepared R
  unfolding set_condition
  set_not_ready reason message now t = set_condition "Ready" "False" reason message now t

  abbrev pub set_phase : String → Prepared R → Prepared R
  set_phase phase t = with_status (λ s. record s { phase = phase }) t

-- What the reconciler leaves: an error or none, the task as it was changed in place, and the world.
abbrev pub Reconciled : Type 0 → Type 0 → Type 0
Reconciled W R = Option String × Prepared R × W

module _ {W R S : Type 0} (client : Substrate W R S) (no_spec : TaskSpec R) (template : Template)
    (now : ℕ) (new_id : String → String) where
  abbrev pub with_image : Option (TaskSpec R) → TaskSpec R
  with_image none = record no_spec { image = "gcr.io/ax-substrate/ate-images/ax-task-runner" }
  with_image (some s) =
      if s.image == ""
      then record s { image = "gcr.io/ax-substrate/ate-images/ax-task-runner" }
      else s

  -- The defaults of the metadata, the status and the image.
  unfoldable pub prepare : Task R → Prepared R
  prepare t =
      let m = meta_of t.metadata in
      record {
        task = record t {
          metadata = some (record m { atespace = or_default m.atespace });
          spec = some (with_image t.spec);
        };
        status = status_of t.status;
      }

  -- The actor is named after the task; an id is given once.
  unfoldable pub identify : Prepared R → Prepared R
  identify t =
      let name = (meta_of t.task.metadata).name in
      with_status (λ s. record s { actor = name; id = if s.id == "" then new_id name else s.id }) t

  -- After the actor runs: whether its workspace is set up decides the two conditions.
  unfoldable pub report : Bool → (worker_ip : String) → Prepared R → Prepared R
  unfolding set_condition condition_true
  report true worker_ip t =
      let t' =
        if not (condition_true "WorkspaceReady" t)
        then set_condition "WorkspaceReady" "True" "SetupComplete"
            ("Workspace setup completed at " ++ worker_ip) now t
        else t in
      set_condition "Ready" "True" "TaskRunning" "Task is running and its workspace is ready" now t'
  report false worker_ip t =
      set_condition "Ready" "False" "WorkspaceInitializing"
        "Waiting for workspace setup to complete" now
        (set_condition "WorkspaceReady" "False" "Initializing"
          ("Workspace is initializing at " ++ worker_ip) now t)

  unfoldable pub after_resume : (worker_ip : String) → Prepared R → W → Reconciled W R
  unfolding report condition_true
  after_resume worker_ip t w =
      let t' = with_status (λ s. record s { worker_ip = worker_ip; phase = "Running" }) t in
      let ready = condition_true "WorkspaceReady" t' in
      let (answer, w') = client.poll worker_ip w in
      if worker_ip == "" || ready
      then (none, report ready worker_ip t', w)
      else (none, report answer worker_ip t', w')

  unfoldable pub resume : (atespace actor : String) → Prepared R → W → Reconciled W R
  unfolding after_resume set_not_ready
  resume atespace actor t w =
      let (r, w') = client.resume_actor atespace actor w in
      elim r [
        | err e ↦ (some e, set_phase "Failed" (set_not_ready "ActorResumeFailed" e now t), w')
        | ok worker_ip ↦ after_resume worker_ip t w'
      ]

  unfoldable pub suspend : (atespace actor : String) → Prepared R → W → Reconciled W R
  unfolding set_not_ready set_condition
  suspend atespace actor t w =
      let (r, w') = client.suspend_actor atespace actor w in
      elim r [
        | err e ↦ (some e, set_not_ready "ActorSuspendFailed" e now t, w')
        | ok _ ↦ (
          none,
          set_condition "Ready" "False" "TaskSuspended" "Task is suspended" now
              (with_status (λ s. record s { worker_ip = ""; phase = "Suspended" }) t),
          w',
        )
      ]

  abbrev pub or_template : Option Template → Template
  or_template none = template
  or_template (some x) = x

  -- The actor is ensured from its template, and then suspended or resumed by the task's phase.
  unfoldable pub with_template :
      (atespace actor : String) → Option Template → Prepared R → W → Reconciled W R
  unfolding suspend resume set_not_ready
  with_template atespace actor found t w =
      let (r, w') = client.ensure_actor atespace actor (or_template found) w in
      elim r [
        | err e ↦ (some e, set_phase "Failed" (set_not_ready "ActorCreationFailed" e now t), w')
        | ok _ ↦
            if phase_of t == "Suspended" || phase_of t == ""
            then suspend atespace actor t w'
            else resume atespace actor t w'
      ]

  unfoldable pub provision :
      (atespace actor : String)
      → List (Resource (WorkspaceSpec S))
      → Prepared R
      → W
      → Reconciled W R
  unfolding with_template set_not_ready
  provision atespace actor workspaces t w =
      let (r, w') = client.ensure_template template (as_task t) workspaces w in
      elim r [
        | err e ↦ (some e, set_not_ready "ActorTemplateCreationFailed" e now t, w')
        | ok found ↦ with_template atespace actor found t w'
      ]

  unfoldable pub reconcile : Task R → List (Resource (WorkspaceSpec S)) → W → Reconciled W R
  unfolding prepare identify provision set_condition
  reconcile task workspaces w =
      let t = prepare task in
      let m = meta_of t.task.metadata in
      let (r, w') = client.ensure_atespace m.atespace w in
      elim r [
        | err e ↦ (
          some e,
          set_phase "Failed" (set_condition "Ready" "False" "AtespaceCreationFailed" e now t),
          w',
        )
        | ok _ ↦ provision m.atespace m.name workspaces (identify t) w'
      ]

  -- A failure to delete the templates is only logged.
  unfoldable pub reconcile_delete : (atespace name : String) → Exec W String (Unit {0})
  reconcile_delete atespace name w =
      let (r, w') = client.delete_actor (or_default atespace) name w in
      let (_, w'') = client.delete_templates (or_default atespace) name w' in
      elim r [ err e ↦ (err e, w') | ok _ ↦ (ok tt, w'') ]

pub data EventError : Type 0 where
  cleaning_up reconciling : String → EventError
  removing fetching updating : StoreError → EventError

module _ {W R S M : Type 0} (client : Substrate W R S) (no_spec : TaskSpec R) (template : Template)
    (now : ℕ) (new_id : String → String) (st : Store W R S M) where
  -- A workspace without a name, or one that cannot be read, is skipped.
  unfoldable pub resolve :
      (atespace : String) → List WorkspaceRef → W → List (Resource (WorkspaceSpec S)) × W
  resolve atespace [] w = ([], w)
  resolve atespace (r ∷ rs) w =
      let (x, w') = st.get_workspace atespace r.name w in
      let skipped = resolve atespace rs w in
      let (rest, w'') = resolve atespace rs w' in
      if r.name == ""
      then skipped
      else elim x [ err e ↦ (rest, w'') | ok found ↦ (found ∷ rest, w'') ]

  unfoldable pub delete_event : TaskEvent → Exec W EventError (Unit {0})
  unfolding reconcile_delete
  delete_event ev w =
      let (r, w') = reconcile_delete client no_spec template now new_id ev.atespace ev.name w in
      elim r [
        | err e ↦ (err (cleaning_up e), w')
        | ok _ ↦
            let (x, w'') = st.delete_task ev.atespace ev.name w' in
            elim x [ err e ↦ (err (removing e), w'') | ok _ ↦ (ok tt, w'') ]
      ]

  -- What was reconciled is written; after an error the phase is "Failed", and a failing write is
  -- ignored.
  unfoldable pub record_outcome : ObjectMeta → Reconciled W R → Result EventError (Unit {0}) × W
  record_outcome m (some e, t, w) =
      let (_, w') =
        st.update_task_status m.atespace m.name (some (set_phase "Failed" t).status) w in
      (err (reconciling e), w')
  record_outcome m (none, t, w) =
      let (r, w') = st.update_task_status m.atespace m.name (some t.status) w in
      elim r [ err e ↦ (err (updating e), w') | ok _ ↦ (ok tt, w') ]

  unfoldable pub task_event : Result StoreError (Task R) → Exec W EventError (Unit {0})
  unfolding resolve record_outcome reconcile
  task_event (err StoreError.not_found) w = (ok tt, w)
  task_event (err e) w = (err (fetching e), w)
  task_event (ok t) w =
      let (workspaces, w') = resolve (meta_of t.metadata).atespace (workspace_refs t.spec) w in
      if (status_of t.status).phase == "Terminating"
      then (ok tt, w)
      else record_outcome (meta_of (prepare client no_spec template now new_id t).task.metadata)
          (reconcile client no_spec template now new_id t workspaces w')

  unfoldable pub process_event : TaskEvent → Exec W EventError (Unit {0})
  unfolding delete_event task_event
  process_event ev w =
      let (r, w') = st.get_task ev.atespace ev.name w in
      if ev.action == "delete" then delete_event ev w else task_event r w'
