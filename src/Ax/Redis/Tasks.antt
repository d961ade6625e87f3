-- ===== src/Ax/Redis/Tasks.antt =====
-- The tasks of the Redis store (engine/ax/internal/store/redis/store.go). A message is a value: a caller's
-- task that `SaveTask` completes is its answer.
use mathlib.Core.List.{◌++◌}
use task_a.Prelude.{
  String, ℕ, suc, ℤ, pos, negsuc, zero, List, [], ◌∷◌, Map, Option, some, err, Exec, ◌==◌,
  if◌then◌else◌,
}
use task_a.Ax.Types.{Task, TaskStatus, meta_of}
use task_a.Ax.Memory.{completed, default_atespace, status_of, add64}
use task_a.Ax.Redis.Records.{
  Layout, get_record, list_records, save_commands, delete_record, write_record,
}
use task_a.Ax.Redis.Client.{Client, Codec, Command, RedisError, name_required, chain}
use task_a.Ax.Redis.Keys.{
  or_default, task_key, task_index_key, task_atespace_index_key, task_channel,
}

pub record Options : Type 0 where
  pub stream_name : String
  pub key_prefix : String
  pub ttl : ℕ
  pub read_batch_size : ℤ
  pub read_block : ℤ

-- if x <= 0 { x = d }
abbrev pub positive_or : ℕ → ℤ → ℤ
positive_or d (pos zero) = pos d
positive_or d (negsuc n) = pos d
positive_or d (pos (suc n)) = pos (suc n)

-- The options with their defaults; a duration is in nanoseconds.
abbrev pub new_store : Options → Options
new_store o = record {
  stream_name = if o.stream_name == "" then "ax:stream:tasks" else o.stream_name;
  key_prefix = if o.key_prefix == "" then "ax" else o.key_prefix;
  ttl = o.ttl;
  read_batch_size = positive_or 10 o.read_batch_size;
  read_block = positive_or 2000000000 o.read_block;
}

-- The entry of the stream for a task.
abbrev pub entry : (action atespace name : String) → Map String
entry action atespace name = ("action", action) ∷ ("atespace", atespace) ∷ ("name", name) ∷ []

abbrev pub tasks_of : Options → Layout
tasks_of o = record {
  key = task_key o.key_prefix;
  index = task_index_key o.key_prefix;
  atespace_index = task_atespace_index_key o.key_prefix;
}

-- v1alpha1.APIVersion
abbrev pub this_version : String
this_version = "ax.io/v1alpha1"

-- The API version and kind, where they are not given; the in-memory store does not fill them in.
abbrev pub typed : {R : Type 0} → Task R → Task R
typed t = record t {
  api_version = if t.api_version == "" then this_version else t.api_version;
  kind = if t.kind == "" then "Task" else t.kind;
}

module _ {W R : Type 0} (c : Client W) (j : Codec (Task R)) (o : Options) where
  -- `score` is the clock's reading.
  unfoldable pub save_task : (score : ℕ) → Task R → Exec W RedisError (Task R)
  save_task score t w =
      let m = default_atespace (meta_of t.metadata) in
      if (meta_of t.metadata).name == ""
      then (err name_required, w)
      else write_record c j (typed (completed t))
          (λ text.
            save_commands (tasks_of o) score o.ttl m.atespace m.name text
            ++ (Command.xadd o.stream_name (entry "reconcile" m.atespace m.name)
                ∷ Command.publish (task_channel o.key_prefix m.atespace m.name) text
                ∷ []))
          (typed (completed t)) w

  unfoldable pub get_task : (atespace name : String) → Exec W RedisError (Task R)
  unfolding get_record
  get_task atespace name = get_record c j (tasks_of o) atespace name

  unfoldable pub list_tasks : String → (limit offset : ℤ) → Exec W RedisError (List (Task R))
  unfolding list_records add64
  list_tasks atespace limit offset =
      list_records c j (tasks_of o) atespace offset
        (add64 (add64 offset (positive_or 50 limit)) (negsuc 0))

  -- The key is made of the atespace as it is given.
  unfoldable pub update_task_status :
      (atespace name : String) → Option TaskStatus → Exec W RedisError (Unit {0})
  unfolding get_task
  update_task_status atespace name status = chain (get_task atespace name) (λ t.
      write_record c j (record t { status = status })
        (λ text.
          Command.set (task_key o.key_prefix atespace name) text o.ttl
          ∷ Command.publish (task_channel o.key_prefix atespace name) text
          ∷ [])
        tt)

  unfoldable pub mark_task_deleting : (atespace name : String) → Exec W RedisError (Unit {0})
  unfolding get_task
  mark_task_deleting atespace name =
      let a = or_default atespace in
      chain (get_task a name) (λ t.
        write_record c j
          (record t { status = some (record (status_of t.status) { phase = "Terminating" }) })
          (λ text.
            Command.set (task_key o.key_prefix a name) text o.ttl
            ∷ Command.publish (task_channel o.key_prefix a name) text
            ∷ Command.xadd o.stream_name (entry "delete" a name)
            ∷ [])
          tt)

unfoldable pub delete_task :
    {W : Type 0} → Client W → Options → (atespace name : String) → Exec W RedisError (Unit {0})
unfolding delete_record
delete_task c o atespace name = delete_record c (tasks_of o) atespace name
