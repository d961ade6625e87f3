-- ===== src/Ax/Redis/Refines.antt =====
-- The task operations of the Redis store (engine/ax/internal/store/redis/store.go) as one step.
use task_a.Prelude.{String, ℕ, Option, none, some, Result, ok, Exec, ◌≡◌, ◌≢◌}
use task_a.Ax.Types.{Task, TaskStatus}
use task_a.Ax.Memory as Memory
use task_a.Ax.Memory.{MemoryStore, StoreError, completed}
use task_a.Ax.Redis.Client.{Client, Codec, IsFaithful, RedisError}
use task_a.Ax.Redis.Tasks as Tasks
use task_a.Ax.Redis.Tasks.{Options, typed}
use task_a.Ax.Redis.Agree.{answered, typed_of}
use task_a.Ax.Redis.Implements.{terminating}

-- A call of the store's interface. `save` and `mark` carry the readings of the clock.
pub data Call (R : Type 0) : Type 0 where
  save : (score : ℕ) (now : String) → Task R → Call R
  get : (atespace name : String) → Call R
  update : (atespace name : String) → Option TaskStatus → Call R
  mark : (now atespace name : String) → Call R
  delete : (atespace name : String) → Call R

module _ {R : Type 0} where
  abbrev pub nothing : Unit {0} → Option (Task R)
  nothing u = none

abbrev pub run_memory :
    {R S M : Type 0} → Call R → Exec (MemoryStore R S M) StoreError (Option (Task R))
run_memory (Call.save score now t) s = answered some (Memory.save_task now t s)
run_memory (Call.get atespace name) s = answered some (Memory.get_task atespace name s, s)
run_memory (Call.update atespace name status) s =
    answered nothing (Memory.update_task_status atespace name status s)
run_memory (Call.mark now atespace name) s =
    answered nothing (Memory.mark_task_deleting now atespace name s)
run_memory (Call.delete atespace name) s = (ok none, Memory.delete_task atespace name s)

module _ {W R : Type 0} (c : Client W) (j : Codec (Task R)) (o : Options) where
  abbrev pub run_redis : Call R → Exec W RedisError (Option (Task R))
  run_redis (Call.save score now t) w = answered some (Tasks.save_task c j o score t w)
  run_redis (Call.get atespace name) w = answered some (Tasks.get_task c j o atespace name w)
  run_redis (Call.update atespace name status) w =
      answered nothing (Tasks.update_task_status c j o atespace name status w)
  run_redis (Call.mark now atespace name) w =
      answered nothing (Tasks.mark_task_deleting c j o atespace name w)
  run_redis (Call.delete atespace name) w = answered nothing (Tasks.delete_task c o atespace name w)

-- The encoder is faithful to the task that the call writes, and an update names its atespace.
abbrev pub IsPlain : {R S M : Type 0} → Codec (Task R) → Call R → MemoryStore R S M → Type 0
IsPlain j (Call.save score now t) s = IsFaithful j (typed (completed t))
IsPlain j (Call.get atespace name) s = Unit
IsPlain {R = R} j (Call.update atespace name status) s =
    (atespace ≢ "")
    × ((t : Task R)
        → Memory.get_task atespace name s ≡ ok t
        → IsFaithful j (typed (record t { status = status })))
IsPlain {R = R} j (Call.mark now atespace name) s =
    (t : Task R) → Memory.get_task atespace name s ≡ ok t → IsFaithful j (typed (terminating t))
IsPlain j (Call.delete atespace name) s = Unit

-- The answer with the API version and kind of its task filled in.
abbrev pub typed_answer :
    {R E S : Type 0} → Result E (Option (Task R)) × S → Result E (Option (Task R)) × S
typed_answer x = answered typed_of x
