-- ===== src/Ax/Redis/Implements.antt =====
-- The Redis store (engine/ax/internal/store/redis/store.go) against the memory store
-- (engine/ax/internal/store/memory/store.go), call by call.

use task_a.Prelude.{
  String, ℕ, true, false, Option, none, some, Result, ok, lookup, insert, ◌==◌, ◌≡◌, ◌≢◌, refl, sym,
  ap, ◌∙◌, subst, inl, inr, String-cases,
}
use task_a.Ax.Types.{ObjectMeta, Task, TaskStatus, meta_of}
use task_a.Ax.Memory as Memory
use task_a.Ax.Memory.{
  MemoryStore, StoreError, completed, detached, default_atespace, status_of, notify, publish,
  TaskEvent,
}
use task_a.Ax.Memory.Saved.{found_or_not, get_task-eq, written, notify-tasks}
use task_a.Ax.Redis.Client.{Client, Codec, IsFaithful, IsRedis, RedisError, texts_after, ask}
use task_a.Ax.Redis.Keys.{or_default, member, task_key}
use task_a.Ax.Redis.Records.{decode, get_record, delete_commands}
use task_a.Ax.Redis.Tasks as Tasks
use task_a.Ax.Redis.Tasks.{Options, tasks_of, typed}
use task_a.Ax.Redis.Agree.{
  answered, typed_of, Stands, Holds, Agrees, ran-Agrees, set-Holds, del-Holds,
}
use task_a.Ax.Redis.Simulate.{Holds-eq, read-Agrees, forward-Agrees, write-Agrees}

pub or_default-eq : (a : String) → a ≢ "" → or_default a ≡ a
or_default-eq a h = elim (String-cases a "") [ inl q ↦ absurd (h q.0) | inr q ↦ rw (q.1) refl ]

or_default-nonempty : (a : String) → or_default a ≢ ""
or_default-nonempty a = elim (String-cases a "") [
  | inl q ↦ rw (q.1) (λ e. cc (ap (λ x. x == "") e))
  | inr q ↦ rw (q.1) (q.0)
]

pub default_atespace-nonempty : (m : ObjectMeta) → (default_atespace m).atespace ≢ ""
default_atespace-nonempty m = elim (String-cases m.atespace "") [
  | inl q ↦ rw (q.1) (λ e. cc (ap (λ x. x == "") e))
  | inr q ↦ rw (q.1) (q.0)
]

abbrev saved_meta : {R : Type 0} → Task R → ObjectMeta
saved_meta t = default_atespace (meta_of t.metadata)

abbrev pub terminating : {R : Type 0} → Task R → Task R
terminating t = record t { status = some (record (status_of t.status) { phase = "Terminating" }) }

typed_found :
    {R S : Type 0} (o : Option (Task R)) (s : S)
    → answered typed (found_or_not o, s) ≡ (found_or_not (typed_of o), s)
typed_found none s = refl
typed_found (some t) s = refl

-- The memory store's key of a task whose atespace is given.
task_key-eq : (a name : String) → a ≢ "" → Memory.task_key a name ≡ member a name
unfolding Memory.task_key
task_key-eq a name h = ap (λ b. member b name) (or_default-eq a h)

module _ {W R : Type 0} (c : Client W) (j : Codec (Task R)) (o : Options) where
  get_task-default :
      (atespace name : String) (w : W)
      → Tasks.get_task c j o (or_default atespace) name w ≡ Tasks.get_task c j o atespace name w
  unfolding Tasks.get_task get_record
  get_task-default atespace name w =
      ap (λ b. ask (c.get (task_key o.key_prefix b name)) (λ v u. (decode j v, u)) w)
        (or_default-eq (or_default atespace) (or_default-nonempty atespace))

module _ {W R S M : Type 0} (c : Client W) (j : Codec (Task R)) (texts : W → String → Option String)
    (o : Options) (redis : IsRedis c texts) where
  read :
      (atespace name : String) (w : W) (s : MemoryStore R S M)
      → Holds j o.key_prefix (texts w) s.tasks
      → Agrees c j texts o.key_prefix
          (Tasks.get_task c j o atespace name w)
          (found_or_not (typed_of (lookup (Memory.task_key atespace name) s.tasks)), s)
  unfolding Tasks.get_task Memory.task_key
  read atespace name w s holds =
      let key = task_key o.key_prefix (or_default atespace) name in
      read-Agrees c j texts o.key_prefix (lookup (Memory.task_key atespace name) s.tasks) s
        (c.get key w) (λ e f. inr (key, w, f))
        (λ v f.
          subst (λ (v : Option String). Stands j v (lookup (Memory.task_key atespace name) s.tasks))
            (sym (redis.gets key w v f)) (holds (Memory.task_key atespace name)))
        (Holds-eq j o.key_prefix (texts w) (texts (c.get key w).1) s.tasks
          (λ k. redis.get_keeps key k w) holds)

  pub get_task-Agrees :
      (atespace name : String) (w : W) (s : MemoryStore R S M)
      → Holds j o.key_prefix (texts w) s.tasks
      → Agrees c j texts o.key_prefix
          (Tasks.get_task c j o atespace name w)
          (answered typed (Memory.get_task atespace name s, s))
  get_task-Agrees atespace name w s holds =
      subst (Agrees c j texts o.key_prefix (Tasks.get_task c j o atespace name w))
        (sym (ap (λ r. answered typed (r, s)) (get_task-eq atespace name s) ∙ typed_found _ s))
        (read atespace name w s holds)

  pub delete_task-Agrees :
      (atespace name : String) (w : W) (s : MemoryStore R S M)
      → Holds j o.key_prefix (texts w) s.tasks
      → Agrees c j texts o.key_prefix
          (Tasks.delete_task c o atespace name w)
          (ok tt, Memory.delete_task atespace name s)
  unfolding Tasks.delete_task Memory.delete_task Memory.task_key
  delete_task-Agrees atespace name w s holds =
      let cs = delete_commands (tasks_of o) (or_default atespace) name in
      let s' = Memory.delete_task atespace name s in
      ran-Agrees c j texts o.key_prefix tt s' (c.exec cs w) (λ e f. inl (cs, w, f))
        (λ f.
          Holds-eq j o.key_prefix (texts_after cs (texts w)) (texts (c.exec cs w).1) s'.tasks
            (λ k. redis.execs cs w k f)
            (del-Holds j o.key_prefix (texts w) s.tasks s'.tasks (Memory.task_key atespace name)
              holds refl))

  pub save_task-Agrees :
      (score : ℕ) (now : String) (t : Task R) (w : W) (s : MemoryStore R S M)
      → IsFaithful j (typed (completed t))
      → Holds j o.key_prefix (texts w) s.tasks
      → Agrees c j texts o.key_prefix
          (Tasks.save_task c j o score t w)
          (answered typed (Memory.save_task now t s))
  unfolding Tasks.save_task Memory.save_task
  save_task-Agrees score now t w s faithful holds =
      elim (String-cases (meta_of t.metadata).name "") [
        | inl q ↦ rw (q.1) (refl, holds)
        | inr q ↦ rw (q.1) (
            write-Agrees c j texts o.key_prefix (typed (completed t)) (typed (completed t)) _ w _
              redis
              (λ text e.
                set-Holds j o.key_prefix (texts w) s.tasks _
                  (member (saved_meta t).atespace (saved_meta t).name) text (completed t) holds
                  (faithful text e)
                  (written _ _ (completed t) true detached s
                    ∙ ap (λ k. insert k (completed t) s.tasks)
                        (task_key-eq (saved_meta t).atespace (saved_meta t).name
                          (default_atespace-nonempty (meta_of t.metadata))))))
      ]

  pub update_task_status-Agrees :
      (atespace name : String) (status : Option TaskStatus) (w : W) (s : MemoryStore R S M)
      → atespace ≢ ""
      → ((t : Task R)
          → Memory.get_task atespace name s ≡ ok t
          → IsFaithful j (typed (record t { status = status })))
      → Holds j o.key_prefix (texts w) s.tasks
      → Agrees c j texts o.key_prefix
          (Tasks.update_task_status c j o atespace name status w)
          (Memory.update_task_status atespace name status s)
  unfolding Tasks.update_task_status Memory.update_task_status
  update_task_status-Agrees atespace name status w s given faithful holds =
      forward-Agrees c j texts o.key_prefix (lookup (Memory.task_key atespace name) s.tasks) s _ _ _
        (read atespace name w s holds) (λ e. rw (e, Memory.update_task_status) refl)
        (λ t v e held.
          rw (e, Memory.update_task_status)
            (write-Agrees c j texts o.key_prefix tt (typed (record t { status = status })) _ v _
              redis
              (λ text q.
                set-Holds j o.key_prefix (texts v) s.tasks _ (member atespace name) text
                  (record t { status = status }) held
                  (faithful t (get_task-eq atespace name s ∙ ap found_or_not e) text q)
                  (notify-tasks _ _ _
                    ∙ ap (λ k. insert k (record t { status = status }) s.tasks)
                        (task_key-eq atespace name given)))))

  pub mark_task_deleting-Agrees :
      (now atespace name : String) (w : W) (s : MemoryStore R S M)
      → ((t : Task R)
          → Memory.get_task atespace name s ≡ ok t
          → IsFaithful j (typed (terminating t)))
      → Holds j o.key_prefix (texts w) s.tasks
      → Agrees c j texts o.key_prefix
          (Tasks.mark_task_deleting c j o atespace name w)
          (Memory.mark_task_deleting now atespace name s)
  unfolding Tasks.mark_task_deleting Memory.mark_task_deleting Memory.task_key
  mark_task_deleting-Agrees now atespace name w s faithful holds =
      forward-Agrees c j texts o.key_prefix (lookup (Memory.task_key atespace name) s.tasks) s _ _ _
        (subst
          (λ (x : Result RedisError (Task R) × W).
            Agrees c j texts o.key_prefix x
              (found_or_not (typed_of (lookup (Memory.task_key atespace name) s.tasks)), s))
          (sym (get_task-default c j o atespace name w)) (read atespace name w s holds))
        (λ e. rw (e, Memory.mark_task_deleting) refl)
        (λ t v e held.
          rw (e, Memory.mark_task_deleting)
            (write-Agrees c j texts o.key_prefix tt (typed (terminating t)) _ v _ redis (λ text q.
              set-Holds j o.key_prefix (texts v) s.tasks _ (member (or_default atespace) name) text
                (terminating t) held
                (faithful t (get_task-eq atespace name s ∙ ap found_or_not e) text q)
                (written _ _ _ false _ s))))
