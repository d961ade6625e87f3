-- ===== src/Graph/Store.antt =====
-- The store of the task graph (engine/ax/internal/taskgraph/store.go), and its lock.
pub mod Exclusion
pub mod Guarded
pub mod Saved
pub mod Examples
use Prim.Native.String.{◌++◌}
use task_a.Prelude.{
  String, ℕ, Bool, true, false, List, [], ◌∷◌, Option, none, some, Result, ok, err, Exec, Map, ℤ,
}
use task_a.Graph.Model.{State}
use task_a.Ax.Redis.Client.{Client, ClientError, Command}

-- The key of a project's graph.
abbrev pub key : (project id : String) → String
key project id = "task-agent:" ++ (project ++ (":" ++ id))

-- A missing key is an error of the client, `redis.Nil`.
pub data StoreFault : Type 0 where
  missing : StoreFault
  unreadable unwritable : StoreFault
  client : ClientError → StoreFault

-- JSON of a state, and Go's text of the revision.
pub record StateCodec : Type 0 where
  pub encode : State → Option String
  pub decode : String → Option State
  pub revision : State → String

module _ {W : Type 0} (c : Client W) (j : StateCodec) (project : String) where
  abbrev pub read_state : Option State → Result StoreFault State
  read_state none = err StoreFault.unreadable
  read_state (some s) = ok s

  abbrev pub loaded : Result ClientError (Option String) × W → Result StoreFault State × W
  loaded (err e, w) = (err (StoreFault.client e), w)
  loaded (ok none, w) = (err StoreFault.missing, w)
  loaded (ok (some text), w) = (read_state (j.decode text), w)

  unfoldable pub load : (id : String) → Exec W StoreFault State
  load id w = loaded (c.get (key project id) w)

  abbrev pub stored : Result ClientError (Unit {0}) × W → Result StoreFault (Unit {0}) × W
  stored (err e, w) = (err (StoreFault.client e), w)
  stored (ok u, w) = (ok tt, w)

  abbrev pub save_commands : State → String → List Command
  save_commands s text =
      Command.set (key project s.plan.id) text 0
      ∷ Command.xadd (key project s.plan.id ++ ":events")
          (("revision", j.revision s) ∷ ("state", text) ∷ [])
      ∷ []

  abbrev pub write_text : State → Option String → Exec W StoreFault (Unit {0})
  write_text s none w = (err StoreFault.unwritable, w)
  write_text s (some text) w = stored (c.exec (save_commands s text) w)

  unfoldable pub save : State → Exec W StoreFault (Unit {0})
  save s w = write_text s (j.encode s) w

-- SETNX with an expiration, where 0 is none, and the script that deletes the key where it has this value.
pub record LockClient (W : Type 0) : Type 0 where
  pub set_nx : (key owner : String) (expiration : ℕ) → Exec W String Bool
  pub release : (key owner : String) → Exec W String (Unit {0})

pub data LockError (E : Type 0) : Type 0 where
  locked_by_other : (key : String) → LockError E
  lock_failed : String → LockError E
  inner : E → LockError E

module _ {W : Type 0} (c : LockClient W) where
  -- The lock is taken without an expiration.
  abbrev pub acquire : (key owner : String) → Exec W String Bool
  acquire key owner w = c.set_nx key owner 0 w

  -- The deferred release, whose error is ignored.
  abbrev pub give_back : (key owner : String) → W → W
  give_back key owner w = (c.release key owner w).1

module _ {W E A : Type 0} (c : LockClient W) where
  -- Where the lock is taken it is released after the operation, whatever that answers.
  abbrev pub released : (key owner : String) → Result E A × W → Result (LockError E) A × W
  released key owner (err e, w) = (err (LockError.inner e), give_back c key owner w)
  released key owner (ok a, w) = (ok a, give_back c key owner w)

  abbrev pub under :
      (key owner : String) → Exec W E A → Result String Bool × W → Result (LockError E) A × W
  under key owner op (err e, w) = (err (LockError.lock_failed e), w)
  under key owner op (ok false, w) = (err (LockError.locked_by_other key), w)
  under key owner op (ok true, w) = released key owner (op w)

  -- `owner` is the host, the process and the time.
  unfoldable pub locked : (project id owner : String) → Exec W E A → Exec W (LockError E) A
  locked project id owner op w =
      let k = key project id ++ ":lock" in under k owner op (acquire c k owner w)
