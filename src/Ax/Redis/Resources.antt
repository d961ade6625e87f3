-- ===== src/Ax/Redis/Resources.antt =====
-- The models and workspaces of the Redis store (engine/ax/internal/store/redis/store.go).
use task_a.Prelude.{String, ℕ, pos, negsuc, List, some, err, Exec, ◌==◌, if◌then◌else◌}
use task_a.Ax.Types.{Resource, meta_of}
use task_a.Ax.Memory.{default_atespace}
use task_a.Ax.Redis.Client.{Client, Codec, RedisError, name_required}
use task_a.Ax.Redis.Keys.{
  model_key, model_index_key, model_atespace_index_key, workspace_key, workspace_index_key,
  workspace_atespace_index_key,
}
use task_a.Ax.Redis.Records.{
  Layout, get_record, list_records, save_commands, delete_record, write_record,
}
use task_a.Ax.Redis.Tasks.{Options, this_version}

abbrev pub models_of : Options → Layout
models_of o = record {
  key = model_key o.key_prefix;
  index = model_index_key o.key_prefix;
  atespace_index = model_atespace_index_key o.key_prefix;
}

abbrev pub workspaces_of : Options → Layout
workspaces_of o = record {
  key = workspace_key o.key_prefix;
  index = workspace_index_key o.key_prefix;
  atespace_index = workspace_atespace_index_key o.key_prefix;
}

-- `kind` is the kind of the resource.
abbrev pub completed_resource : {S : Type 0} → (kind : String) → Resource S → Resource S
completed_resource kind x = record x {
  api_version = if x.api_version == "" then this_version else x.api_version;
  kind = if x.kind == "" then kind else x.kind;
  metadata = some (default_atespace (meta_of x.metadata));
}

module _ {W S : Type 0} (c : Client W) (j : Codec (Resource S)) where
  -- `SaveModel` and `SaveWorkspace`, by the keys and the name of the kind; `score` is the clock's reading.
  unfoldable pub save_resource :
      Layout → (kind : String) → (score : ℕ) → Resource S → Exec W RedisError (Resource S)
  save_resource l kind score x w =
      let m = default_atespace (meta_of x.metadata) in
      if (meta_of x.metadata).name == ""
      then (err name_required, w)
      else write_record c j (completed_resource kind x)
          (λ text. save_commands l score 0 m.atespace m.name text) (completed_resource kind x) w

module _ {W S : Type 0} (c : Client W) (j : Codec (Resource S)) (o : Options) where
  unfoldable pub save_model : (score : ℕ) → Resource S → Exec W RedisError (Resource S)
  unfolding save_resource
  save_model score x = save_resource c j (models_of o) "Model" score x

  unfoldable pub get_model : (atespace name : String) → Exec W RedisError (Resource S)
  unfolding get_record
  get_model atespace name = get_record c j (models_of o) atespace name

  unfoldable pub list_models : String → Exec W RedisError (List (Resource S))
  unfolding list_records
  list_models atespace = list_records c j (models_of o) atespace (pos 0) (negsuc 0)

  unfoldable pub save_workspace : (score : ℕ) → Resource S → Exec W RedisError (Resource S)
  unfolding save_resource
  save_workspace score x = save_resource c j (workspaces_of o) "Workspace" score x

  unfoldable pub get_workspace : (atespace name : String) → Exec W RedisError (Resource S)
  unfolding get_record
  get_workspace atespace name = get_record c j (workspaces_of o) atespace name

  unfoldable pub list_workspaces : String → Exec W RedisError (List (Resource S))
  unfolding list_records
  list_workspaces atespace = list_records c j (workspaces_of o) atespace (pos 0) (negsuc 0)

module _ {W : Type 0} (c : Client W) (o : Options) where
  unfoldable pub delete_model : (atespace name : String) → Exec W RedisError (Unit {0})
  unfolding delete_record
  delete_model atespace name = delete_record c (models_of o) atespace name

  unfoldable pub delete_workspace : (atespace name : String) → Exec W RedisError (Unit {0})
  unfolding delete_record
  delete_workspace atespace name = delete_record c (workspaces_of o) atespace name
