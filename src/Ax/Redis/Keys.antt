-- ===== src/Ax/Redis/Keys.antt =====
-- The keys of the Redis store (engine/ax/internal/store/redis/store.go). `p` is the prefix of the options.
use Prim.Native.String.{◌++◌}
use task_a.Prelude.{String, code, nat_eq, ◌==◌, Option, none, some, if◌then◌else◌}

-- if atespace == "" { atespace = "default" }
abbrev pub or_default : String → String
or_default atespace = if atespace == "" then "default" else atespace

-- fmt.Sprintf("%s:%s", atespace, name)
abbrev pub member : String → String → String
member atespace name = atespace ++ (":" ++ name)

abbrev pub task_key : (p atespace name : String) → String
task_key p atespace name = p ++ (":task:" ++ member atespace name)

abbrev pub task_index_key : String → String
task_index_key p = p ++ ":tasks:index"

abbrev pub task_atespace_index_key : String → String → String
task_atespace_index_key p atespace = p ++ (":tasks:atespace:" ++ atespace)

abbrev pub task_channel : (p atespace name : String) → String
task_channel p atespace name = p ++ (":pubsub:task:" ++ member atespace name)

-- strings.SplitN(m, ":", 2), where it has two parts
abbrev pub split_member : String → Option (String × String)
split_member String.[] = none
split_member (String.◌∷◌ c s) =
    let rest = split_member s in
    if nat_eq (code c) 58
    then some ("", s)
    else elim rest [ none ↦ none | some q ↦ some (String.◌∷◌ c q.0, q.1) ]

abbrev pub model_key : (p atespace name : String) → String
model_key p atespace name = p ++ (":model:" ++ member atespace name)

abbrev pub model_index_key : String → String
model_index_key p = p ++ ":models:index"

abbrev pub model_atespace_index_key : String → String → String
model_atespace_index_key p atespace = p ++ (":models:atespace:" ++ atespace)

abbrev pub workspace_key : (p atespace name : String) → String
workspace_key p atespace name = p ++ (":workspace:" ++ member atespace name)

abbrev pub workspace_index_key : String → String
workspace_index_key p = p ++ ":workspaces:index"

abbrev pub workspace_atespace_index_key : String → String → String
workspace_atespace_index_key p atespace = p ++ (":workspaces:atespace:" ++ atespace)

-- The record's key for a member of an index, by the key function of the kind.
abbrev pub key_of_member : (String → String → String) → String → String
key_of_member key m = elim (split_member m) [ none ↦ key "default" m | some q ↦ key q.0 q.1 ]
