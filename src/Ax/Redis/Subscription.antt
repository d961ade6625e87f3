-- ===== src/Ax/Redis/Subscription.antt =====
-- The subscription of the Redis store (engine/ax/internal/store/redis/store.go).
use task_a.Prelude.{
  String, ℕ, zero, suc, Bool, List, [], ◌∷◌, ◌++◌, map, Map, lookup, Option, none, some, Result, ok,
  err, Exec, if◌then◌else◌,
}
use task_a.Ax.Memory.{TaskEvent}
use task_a.Ax.Redis.Client.{Client, ClientError, Message}
use task_a.Ax.Redis.Tasks.{Options}

pub record Subscription : Type 0 where
  pub store : Options
  pub group : String
  pub consumer : String
  pub pending : List TaskEvent

-- The first key that is there, or "".
abbrev pub first_of : List String → Map String → String
first_of [] m = ""
first_of (k ∷ ks) m = let rest = first_of ks m in elim (lookup k m) [ none ↦ rest | some v ↦ v ]

unfoldable pub event_from_message : Message → TaskEvent
unfolding lookup
event_from_message msg = record {
  id = msg.id;
  atespace = first_of ("atespace" ∷ "namespace" ∷ []) msg.values;
  name = first_of ("name" ∷ []) msg.values;
  action = first_of ("action" ∷ []) msg.values;
}

abbrev pub events_of : List (List Message) → List TaskEvent
unfolding event_from_message
events_of [] = []
events_of (stream ∷ streams) = map event_from_message stream ++ events_of streams

-- What stops a subscription: the context, or an error of the client.
pub data Stop : Type 0 where
  cancelled : Stop
  failed : ClientError → Stop

module _ {W : Type 0} (c : Client W) where
  -- A group that is there already is joined.
  abbrev joined : Subscription → Result ClientError (Unit {0}) × W → Result Stop Subscription × W
  joined sub (ok u, w) = (ok sub, w)
  joined sub (err ClientError.busy_group, w) = (ok sub, w)
  joined sub (err (ClientError.failure e), w) = (err (Stop.failed (ClientError.failure e)), w)

  unfoldable pub subscribe : Options → (group consumer : String) → Exec W Stop Subscription
  subscribe o group consumer w =
      joined (record { store = o; group = group; consumer = consumer; pending = [] })
        (c.xgroup_create o.stream_name group w)

  abbrev pub received :
      Result ClientError (Option (List (List Message))) × W → Result Stop (List TaskEvent) × W
  received (err e, w) = (err (Stop.failed e), w)
  received (ok none, w) = (ok [], w)
  received (ok (some streams), w) = (ok (events_of streams), w)

  unfoldable pub read : Subscription → Exec W Stop (List TaskEvent)
  read sub w = received (
      c.xread_group sub.store.stream_name sub.group sub.consumer sub.store.read_batch_size
        sub.store.read_block w)

  unfoldable pub ack : Subscription → TaskEvent → Exec W ClientError (Unit {0})
  ack sub e w = c.xack sub.store.stream_name sub.group e.id w

module _ {W B : Type 0} where
  abbrev pub hand :
      (List TaskEvent → Exec W Stop B) → Result Stop (List TaskEvent) × W → Result Stop B × W
  hand rest (err e, w) = (err e, w)
  hand rest (ok es, w) = rest es w

module _ {W : Type 0} (c : Client W) (done : W → Bool) (sub : Subscription) where
  -- The loop of `Next` from these pending events, for so many reads; it waits where the answer is `none`.
  unfoldable pub next_from : ℕ → List TaskEvent → Exec W Stop (Option TaskEvent × Subscription)
  next_from fuel (e ∷ es) w = (ok (some e, record sub { pending = es }), w)
  next_from zero [] w = (ok (none, sub), w)
  next_from (suc k) [] w =
      let rest = hand (next_from k) (read c sub w) in
      if done w then (err Stop.cancelled, w) else rest

-- `done` is whether the context is cancelled.
unfoldable pub next :
    {W : Type 0}
    → Client W
    → (W → Bool)
    → ℕ
    → Subscription
    → Exec W Stop (Option TaskEvent × Subscription)
unfolding next_from
next c done fuel sub = next_from c done sub fuel sub.pending
