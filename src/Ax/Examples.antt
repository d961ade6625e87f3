-- ===== src/Ax/Examples.antt =====
-- The theorems of the AX store and server on one task.
use task_a.Prelude.{
  String, pos, List, [], ◌∷◌, map, lookup, insert, none, some, ok, err, ◌≡◌, refl, All, false,
  arith, ◌^◌, ◌-◌,
}
use task_a.Graph.Validate.Nodes.{IsDistinct}
use task_a.Ax.Types.{
  no_status, Condition, ObjectMeta, WorkspaceRef, TaskSpec, WorkspaceSpec, Task, is_label,
  validate_name, validate_object_meta, some_refs, workspace_refs, workspace_path, trim_right,
  mount_of, check_refs, validate_task,
}
use task_a.Ax.Types.Distinct.{IsBound, ref_name, validate_task-IsDistinct}
use task_a.Ax.Memory.{
  watch_task, watchers_of, Watcher, Sent, MemoryStore, not_found, new_store, task_key, notify,
  publish, save_task, get_task, completed, status_of, mark_task_deleting, delete_task, page, take,
  drop,
}
use task_a.Ax.Memory.Pages.{page-fits, page-overflow}
use task_a.Ax.Memory.Saved.{
  Sets, IsCompleted, save_task-Sets, mark_task_deleting-Sets, delete_task-Sets,
}
use task_a.Ax.Server.{create_task, create_after, new_task}
use task_a.Ax.Controller.{Prepared}
use task_a.Ax.Server.Created.{IsNew, create_task-Creates}
use task_a.Ax.Server.OnMemory.{memory, create_task-Keeps}

abbrev bound : WorkspaceRef
bound = record { name = "code"; path = "/src/"; goal = "" }

abbrev build_meta : ObjectMeta
build_meta = record { name = "build"; atespace = ""; creation_timestamp = none }

abbrev make_spec : TaskSpec (Unit {0})
make_spec = record {
  image = "image";
  command = "make" ∷ [];
  env = [];
  resources = tt;
  workspaces = some bound ∷ none ∷ [];
  debug = false;
}

abbrev job : Task (Unit {0})
job = record {
  api_version = "";
  kind = "";
  metadata = some build_meta;
  spec = some make_spec;
  status = none;
}

abbrev few : List String
few = "a" ∷ "b" ∷ "c" ∷ "d" ∷ []

program : Unit {0}
unfolding is_label validate_name validate_object_meta some_refs workspace_refs workspace_path
    trim_right mount_of check_refs validate_task task_key notify publish save_task get_task lookup
    insert create_task create_after watch_task watchers_of mark_task_deleting
program = tt

valid_job : validate_task job ≡ ok tt
unfolding program
valid_job = refl

validate_task-IsDistinct_example :
    All IsBound (workspace_refs job.spec)
    × IsDistinct (map ref_name (workspace_refs job.spec))
    × IsDistinct (map mount_of (workspace_refs job.spec))
validate_task-IsDistinct_example = validate_task-IsDistinct job valid_job

page-fits_example : page (pos 2) (pos 1) few ≡ some (take 2 (drop 1 few))
page-fits_example = page-fits 2 1 few (omega arith) (omega arith)

page-overflow_example : page (pos (2 ^ 63 - 1)) (pos 1) few ≡ none
page-overflow_example =
    page-overflow (2 ^ 63 - 1) 1 few (omega arith) (omega arith) (omega arith) (omega arith)

abbrev SampleStore : Type 0
SampleStore = MemoryStore (Unit {0}) (WorkspaceSpec (Unit {0})) (Unit {0})

abbrev empty : SampleStore
empty = new_store

abbrev stored : SampleStore
stored = (save_task "1" job empty).1

save_task-Sets_example :
    ((save_task "1" job empty).0 ≡ ok (completed job))
    × IsCompleted job (completed job)
    × Sets (task_key "default" "build") (ok (completed job)) empty (save_task "1" job empty).1
save_task-Sets_example = save_task-Sets "1" job empty (λ e. cc)

mark_task_deleting-Sets_example :
    ((get_task "" "build" stored ≡ err not_found)
      → mark_task_deleting "2" "" "build" stored ≡ (err not_found, stored))
    × ((t : Task (Unit {0}))
        → get_task "" "build" stored ≡ ok t
        → ((mark_task_deleting "2" "" "build" stored).0 ≡ ok tt)
          × Sets
              (task_key "" "build")
              (ok (record t {
                status = some (record (status_of t.status) { phase = "Terminating" });
              }))
              stored
              (mark_task_deleting "2" "" "build" stored).1)
mark_task_deleting-Sets_example = mark_task_deleting-Sets "2" "" "build" stored

delete_task-Sets_example :
    Sets (task_key "" "build") (err not_found) stored (delete_task "" "build" stored)
delete_task-Sets_example = delete_task-Sets "" "build" stored

abbrev created : Task (Unit {0})
created = record (new_task (memory {R = Unit {0}} {S = Unit {0}} {M = Unit {0}} "1") 7 job) {
  spec = job.spec;
}

creation :
    create_task (memory {R = Unit {0}} {S = Unit {0}} {M = Unit {0}} "1") 7 (some job) empty
    ≡ (ok created, (save_task "1" created empty).1)
unfolding program
creation = refl

create_task-Creates_example :
    (validate_task job ≡ ok tt)
    × (get_task "" "build" empty ≡ err not_found)
    × IsNew (Unit {0}) (Unit {0}) (Unit {0}) "1" 7 job created
    × (get_task "" "build" (save_task "1" created empty).1 ≡ ok created)
create_task-Creates_example =
    create_task-Creates (Unit {0}) (Unit {0}) (Unit {0}) "1" 7 job created empty
      (save_task "1" created empty).1 creation

-- A watcher that has not yet received the task that was saved reads it as it was marked later.
abbrev watched : SampleStore
watched =
    (mark_task_deleting "2" "" "build" (save_task "1" job (watch_task "" "build" empty).1).1).1

changed_message :
    map
      (λ (ch : Watcher (Unit {0})).
        map (λ (m : Sent (Unit {0})). (status_of m.task.status).phase) ch.buffer)
      (watchers_of "default:build" watched)
    ≡ ("Terminating" ∷ "Terminating" ∷ []) ∷ []
unfolding program
changed_message = refl

stored_job : get_task "" "build" stored ≡ ok (completed job)
unfolding program
stored_job = refl

create_task-Keeps_example :
    get_task "" "build"
      (create_task (memory {R = Unit {0}} {S = Unit {0}} {M = Unit {0}} "1") 7 (some job) stored).1
    ≡ ok (completed job)
create_task-Keeps_example =
    create_task-Keeps (Unit {0}) (Unit {0}) (Unit {0}) "1" 7 (some job) stored "" "build"
      (completed job) stored_job

-- A condition, by its type, status and reason.
abbrev condition : (type status reason : String) → Condition
condition type status reason = record {
  type = type;
  status = status;
  last_transition_time = some 7;
  reason = reason;
  message = "";
}

abbrev running : Prepared (Unit {0})
running = record {
  task = job;
  status = record no_status {
    conditions =
        condition "WorkspaceReady" "True" "SetupComplete"
        ∷ condition "Ready" "False" "WorkspaceInitializing"
        ∷ [];
  };
}
