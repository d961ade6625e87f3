-- ===== src/Ax/Redis/Records.antt =====
-- What the Redis store (engine/ax/internal/store/redis/store.go) does alike with tasks, models and
-- workspaces: to read one, to list them and to write or delete one with its entries in the indexes.
use task_a.Prelude.{
  String, Bool, true, false, ℕ, ℤ, List, [], ◌∷◌, Option, none, some, Result, ok, err, Exec, ◌==◌,
  ◌||◌, map, if◌then◌else◌,
}
use task_a.Ax.Redis.Client.{Client, Codec, Command, RedisError, not_found, ask}
use task_a.Ax.Redis.Keys.{or_default, member, key_of_member}

-- The functions that make the keys of a kind: of a record, of the index, and of an atespace's index.
pub record Layout : Type 0 where
  pub key : (atespace name : String) → String
  pub index : String
  pub atespace_index : String → String

abbrev pub is_nil : {A : Type 0} → List A → Bool
is_nil [] = true
is_nil (x ∷ xs) = false

module _ {A : Type 0} (j : Codec A) where
  abbrev pub parsed : Result String A → Result RedisError A
  parsed (err e) = err (RedisError.unmarshaling e)
  parsed (ok x) = ok x

  -- The value of a key, decoded.
  abbrev pub decode : Option String → Result RedisError A
  decode none = err not_found
  decode (some text) = parsed (j.unmarshal text)

  abbrev pub keep : Result String A → List A → List A
  keep (err e) xs = xs
  keep (ok x) xs = x ∷ xs

  -- Missing and unreadable values are passed over.
  abbrev pub readable : List (Option String) → List A
  readable [] = []
  readable (none ∷ vs) = readable vs
  readable (some text ∷ vs) = keep (j.unmarshal text) (readable vs)

module _ {W A : Type 0} (c : Client W) (j : Codec A) where
  abbrev pub encoded :
      {B : Type 0} → Result String String → (String → List Command) → B → Exec W RedisError B
  encoded (err e) commands answer w = (err (RedisError.marshaling e), w)
  encoded (ok text) commands answer w = ask (c.exec (commands text)) (λ _ v. (ok answer, v)) w

  -- A transaction over the text of a message.
  abbrev pub write_record : {B : Type 0} → A → (String → List Command) → B → Exec W RedisError B
  write_record x commands answer w = encoded (j.marshal x) commands answer w

  unfoldable pub get_record : Layout → (atespace name : String) → Exec W RedisError A
  get_record l atespace name =
      ask (c.get (l.key (or_default atespace) name)) (λ o w. (decode j o, w))

module _ {W A : Type 0} (c : Client W) (j : Codec A) (l : Layout) where
  abbrev pub fetch : List String → Exec W RedisError (List A)
  fetch ms w =
      if is_nil ms
      then (ok [], w)
      else ask (c.mget (map (key_of_member l.key) ms)) (λ vs v. (ok (readable j vs), v)) w

  -- The page from `start` to `stop` of the newest first.
  unfoldable pub list_records : String → (start stop : ℤ) → Exec W RedisError (List A)
  list_records atespace start stop =
      if atespace == "" || atespace == "*"
      then ask (c.zrevrange l.index start stop) (λ ms. fetch ms)
      else ask (c.zrevrange (l.atespace_index atespace) start stop)
          (λ names. fetch (map (member atespace) names))

module _ (l : Layout) where
  abbrev pub save_commands : (score ttl : ℕ) → (atespace name text : String) → List Command
  save_commands score ttl atespace name text =
      Command.set (l.key atespace name) text ttl
      ∷ Command.zadd l.index score (member atespace name)
      ∷ Command.zadd (l.atespace_index atespace) score name
      ∷ []

  abbrev pub delete_commands : (atespace name : String) → List Command
  delete_commands atespace name =
      Command.del (l.key atespace name)
      ∷ Command.zrem l.index (member atespace name)
      ∷ Command.zrem (l.atespace_index atespace) name
      ∷ []

unfoldable pub delete_record :
    {W : Type 0} → Client W → Layout → (atespace name : String) → Exec W RedisError (Unit {0})
delete_record c l atespace name =
    ask (c.exec (delete_commands l (or_default atespace) name)) (λ _ w. (ok tt, w))
