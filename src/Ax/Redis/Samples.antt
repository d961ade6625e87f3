-- ===== src/Ax/Redis/Samples.antt =====
-- A Redis server in memory, for the runs of the store of engine/ax/internal/store/redis/store.go.
use task_a.Prelude.{
  String, pos, List, [], ◌∷◌, Map, lookup, insert, delete, lookup-insert, lookup-delete, Option,
  none, some, Result, ok, ok-injective, ◌≡◌, refl, sym, ap, ◌∙◌,
}
use task_a.Ax.Types.{Task, meta_of}
use task_a.Ax.Memory.{completed}
use task_a.Ax.Redis.Client.{
  Client, ClientError, Codec, Command, IsRedis, Message, texts_after, values,
}
use task_a.Ax.Redis.Tasks.{Options, new_store, typed}
use task_a.Ax.Redis.Listed.{IsUp}

-- The values, the members of each index, and the batches of events to come.
pub record Server : Type 0 where
  pub texts : Map String
  pub indexes : Map (List String)
  pub batches : List (List Message)

abbrev pub members : String → Server → List String
members k w = elim (lookup k w.indexes) [ none ↦ [] | some ms ↦ ms ]

abbrev pub run_command : Command → Server → Server
run_command (Command.set key text ttl) w = record w { texts = insert key text w.texts }
run_command (Command.del key) w = record w { texts = delete key w.texts }
run_command (Command.zadd key score m) w = record w {
  indexes = insert key (m ∷ members key w) w.indexes;
}
run_command (Command.zrem key m) w = record w { indexes = insert key [] w.indexes }
run_command (Command.xadd s v) w = w
run_command (Command.publish s v) w = w

abbrev pub run_commands : List Command → Server → Server
run_commands [] w = w
run_commands (x ∷ xs) w = run_commands xs (run_command x w)

abbrev pub text_at : Server → String → Option String
text_at w k = lookup k w.texts

abbrev take_batch :
    List (List Message) → Server → Result ClientError (Option (List (List Message))) × Server
take_batch [] w = (ok none, w)
take_batch (b ∷ bs) w = (ok (some (b ∷ [])), record w { batches = bs })

abbrev pub local : Client Server
local = record {
  get = λ k w. (ok (text_at w k), w);
  mget = λ ks w. (ok (values ks (text_at w)), w);
  zrevrange = λ k start stop w. (ok (members k w), w);
  exec = λ xs w. (ok tt, run_commands xs w);
  xgroup_create = λ stream group w. (ok tt, w);
  xread_group = λ stream group consumer count block w. take_batch w.batches w;
  xack = λ stream group id w. (ok tt, w);
}

same_after :
    (xs : List Command) (f g : String → Option String) (k : String)
    → ((i : String) → f i ≡ g i)
    → texts_after xs f k ≡ texts_after xs g k
same_after xs f g k h = ap (λ (t : String → Option String). texts_after xs t k) (λ i n. h n i)

run_commands-texts :
    (xs : List Command) (w : Server) (k : String)
    → text_at (run_commands xs w) k ≡ texts_after xs (text_at w) k
run_commands-texts [] w k = refl
run_commands-texts (Command.set key text ttl ∷ xs) w k =
    run_commands-texts xs _ k ∙ same_after xs _ _ k (λ i. lookup-insert key i text w.texts)
run_commands-texts (Command.del key ∷ xs) w k =
    run_commands-texts xs _ k ∙ same_after xs _ _ k (λ i. lookup-delete key i w.texts)
run_commands-texts (Command.zadd key score m ∷ xs) w k = run_commands-texts xs _ k
run_commands-texts (Command.zrem key m ∷ xs) w k = run_commands-texts xs _ k
run_commands-texts (Command.xadd s v ∷ xs) w k = run_commands-texts xs w k
run_commands-texts (Command.publish s v ∷ xs) w k = run_commands-texts xs w k

pub local-IsRedis : IsRedis local text_at
local-IsRedis = record {
  gets = λ k w o h. sym (ok-injective h);
  get_keeps = λ k j w. refl;
  mgets = λ ks w os h. sym (ok-injective h);
  zrevrange_keeps = λ k j a b w. refl;
  execs = λ xs w j h. run_commands-texts xs w j;
}

pub local-IsUp : IsUp local
local-IsUp = record {
  got = λ k w. (text_at w k, refl);
  many = λ ks w. (values ks (text_at w), refl);
}

abbrev pub named : String → Task (Unit {0})
named n = record {
  api_version = "";
  kind = "";
  metadata = some (record { name = n; atespace = ""; creation_timestamp = none });
  spec = none;
  status = none;
}

-- An encoder of tasks that have no more than a name.
abbrev pub by_name : Codec (Task (Unit {0}))
by_name = record {
  marshal = λ t. ok (meta_of t.metadata).name;
  unmarshal = λ text. ok (typed (completed (named text)));
}

abbrev pub options : Options
options = new_store (record {
  stream_name = "";
  key_prefix = "";
  ttl = 0;
  read_batch_size = pos 0;
  read_block = pos 0;
})

abbrev pub empty_server : Server
empty_server = record { texts = []; indexes = []; batches = [] }
