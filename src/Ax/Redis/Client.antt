-- ===== src/Ax/Redis/Client.antt =====
-- What the Redis store (engine/ax/internal/store/redis/store.go) asks of its client and of protojson.
use task_a.Prelude.{
  String, ℕ, ℤ, List, [], ◌∷◌, Map, Option, none, some, Result, ok, err, Exec, ◌==◌, if◌then◌else◌,
  ◌≡◌,
}

-- `busy_group` is an error whose text contains "BUSYGROUP".
pub data ClientError : Type 0 where
  busy_group : ClientError
  failure : String → ClientError

-- The commands of a transaction. The score of `zadd` is the clock's reading.
pub data Command : Type 0 where
  set : (key value : String) → ℕ → Command
  del : String → Command
  zadd : String → ℕ → String → Command
  zrem : (key member : String) → Command
  xadd : String → Map String → Command
  publish : (channel value : String) → Command

pub record Message : Type 0 where
  pub id : String
  pub values : Map String

-- A reply of `redis.Nil` is `none`. `W` is the world of the server.
pub record Client (W : Type 0) : Type 0 where
  pub get : String → Exec W ClientError (Option String)
  pub mget : List String → Exec W ClientError (List (Option String))
  pub zrevrange : String → (start stop : ℤ) → Exec W ClientError (List String)
  pub exec : List Command → Exec W ClientError (Unit {0})
  pub xgroup_create : (stream group : String) → Exec W ClientError (Unit {0})
  pub xread_group :
      (stream group consumer : String)
      → (count block : ℤ) → Exec W ClientError (Option (List (List Message)))
  pub xack : (stream group id : String) → Exec W ClientError (Unit {0})

-- protojson, for the messages of one type
pub record Codec (A : Type 0) : Type 0 where
  pub marshal : A → Result String String
  pub unmarshal : String → Result String A

-- A message that is written is read as itself.
abbrev pub IsFaithful : {A : Type 0} → Codec A → A → Type 0
IsFaithful c x = (text : String) → c.marshal x ≡ ok text → c.unmarshal text ≡ ok x

pub data RedisError : Type 0 where
  not_found name_required : RedisError
  marshaling unmarshaling : String → RedisError
  client : ClientError → RedisError

module _ {W : Type 0} where
  abbrev pub pass :
      {A B : Type 0}
      → (A → Exec W RedisError B)
      → Result ClientError A × W
      → Result RedisError B × W
  pass rest (err e, w) = (err (RedisError.client e), w)
  pass rest (ok a, w) = rest a w

  -- A call of the client, an error of which is returned, and the rest of the code.
  abbrev pub ask :
      {A B : Type 0} → Exec W ClientError A → (A → Exec W RedisError B) → Exec W RedisError B
  ask call rest w = pass rest (call w)

  abbrev pub forward :
      {A B : Type 0} → (A → Exec W RedisError B) → Result RedisError A × W → Result RedisError B × W
  forward rest (err e, w) = (err e, w)
  forward rest (ok a, w) = rest a w

  abbrev pub chain :
      {A B : Type 0} → Exec W RedisError A → (A → Exec W RedisError B) → Exec W RedisError B
  chain call rest w = forward rest (call w)

-- The values that these commands leave.
abbrev pub texts_after : List Command → (String → Option String) → String → Option String
texts_after [] texts k = texts k
texts_after (Command.set key value ttl ∷ cs) texts k =
    texts_after cs (λ j. if key == j then some value else texts j) k
texts_after (Command.del key ∷ cs) texts k =
    texts_after cs (λ j. if key == j then none else texts j) k
texts_after (Command.zadd key score m ∷ cs) texts k = texts_after cs texts k
texts_after (Command.zrem key m ∷ cs) texts k = texts_after cs texts k
texts_after (Command.xadd s v ∷ cs) texts k = texts_after cs texts k
texts_after (Command.publish s v ∷ cs) texts k = texts_after cs texts k

abbrev pub values : List String → (String → Option String) → List (Option String)
values [] texts = []
values (k ∷ ks) texts = texts k ∷ values ks texts

-- Redis, seen through the value of each key, while no key expires: a read that is answered is answered
-- from the values and changes none, and a transaction that is answered ran all its commands in their
-- order. One that fails may have run or not.
pub record IsRedis {W : Type 0} (c : Client W) (texts : W → String → Option String) : Type 0 where
  pub gets : (k : String) (w : W) (o : Option String) → (c.get k w).0 ≡ ok o → o ≡ texts w k
  pub get_keeps : (k j : String) (w : W) → texts (c.get k w).1 j ≡ texts w j
  pub mgets :
      (ks : List String) (w : W) (os : List (Option String))
      → (c.mget ks w).0 ≡ ok os
      → os ≡ values ks (texts w)
  pub zrevrange_keeps :
      (k j : String) (a b : ℤ) (w : W) → texts (c.zrevrange k a b w).1 j ≡ texts w j
  pub execs :
      (cs : List Command) (w : W) (j : String)
      → (c.exec cs w).0 ≡ ok tt
      → texts (c.exec cs w).1 j ≡ texts_after cs (texts w) j
