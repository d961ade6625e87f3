-- ===== src/Ax/Memory/Saved.antt =====
-- What a task that was saved, marked or deleted is read as
-- (engine/ax/internal/store/memory/store.go).
use task_a.Prelude.{
  String, Bool, true, false, Map, lookup, insert, lookup-insert_self, lookup-insert_ne,
  lookup-delete, delete, Option, none, some, Result, ok, err, ◌==◌, eq_refl, ltb, length,
  if◌then◌else◌, ◌≡◌, ◌≢◌, refl, sym, ap, ◌∙◌, inl, inr, Bool-cases, Option-cases, String-cases,
}
use task_a.Ax.Types.{Task, meta_of}
use task_a.Ax.Memory.{
  MemoryStore, StoreError, not_found, TaskEvent, task_key, default_atespace, status_of, notify,
  publish, completed, Sent, put_task, detached, save_task, get_task, mark_task_deleting,
  delete_task,
}

module _ {R : Type 0} where
  abbrev pub found_or_not : Option (Task R) → Result StoreError (Task R)
  found_or_not none = err not_found
  found_or_not (some t) = ok t

  other_key :
      (key j : String) (m : Map (Task R))
      → j ≢ key
      → (if key == j then none else lookup j m) ≡ lookup j m
  other_key key j m k = elim (String-cases key j) [
    | inl p ↦ absurd (k (sym p.0))
    | inr p ↦ rw p.1 refl
  ]

-- The task with its defaults: an atespace and a phase that are not given are "default" and "Pending", and
-- all else is kept.
abbrev pub IsCompleted : {R : Type 0} (t t' : Task R) → Type 0
IsCompleted t t' =
    let m = meta_of t.metadata in
    let s = status_of t.status in
    t' ≡ record t {
      metadata = some (record m { atespace = if m.atespace == "" then "default" else m.atespace });
      status = some (record s { phase = if s.phase == "" then "Pending" else s.phase });
    }

pub completed-IsCompleted : {R : Type 0} (t : Task R) → IsCompleted t (completed t)
completed-IsCompleted t = elim (Bool-cases ((meta_of t.metadata).atespace == "")) [
  | inl a ↦ elim (Bool-cases ((status_of t.status).phase == "")) [
    | inl b ↦ rw (a, b) refl
    | inr b ↦ rw (a, b) refl
  ]
  | inr a ↦ elim (Bool-cases ((status_of t.status).phase == "")) [
    | inl b ↦ rw (a, b) refl
    | inr b ↦ rw (a, b) refl
  ]
]

module _ {R S M : Type 0} where
  pub notify-tasks :
      (key : String) (m : Sent R) (s : MemoryStore R S M) → (notify key m s).tasks ≡ s.tasks
  unfolding notify
  notify-tasks key m s = elim (Option-cases (lookup key s.watchers)) [
    | inl e ↦ rw (e, notify) refl
    | inr (chs, e) ↦ rw (e, notify) refl
  ]

  pub publish-tasks : (e : TaskEvent) (s : MemoryStore R S M) → (publish e s).tasks ≡ s.tasks
  unfolding publish
  publish-tasks e s = elim (Bool-cases (ltb (length s.events) 1000)) [
    | inl p ↦ rw (p, publish) refl
    | inr p ↦ rw (p, publish) refl
  ]

  -- The tasks after a change of one of them.
  pub written :
      (e : TaskEvent) (key : String) (t : Task R) (shared : Bool) (f : Sent R → Sent R)
      (s : MemoryStore R S M)
      → (publish e (notify key (record { task = t; shared = shared }) (put_task f key t s))).tasks
        ≡ insert key t s.tasks
  written e key t shared f s = publish-tasks e _ ∙ notify-tasks key _ _

  pub get_task-eq :
      (atespace name : String) (s : MemoryStore R S M)
      → get_task atespace name s ≡ found_or_not (lookup (task_key atespace name) s.tasks)
  unfolding get_task
  get_task-eq atespace name s = elim (Option-cases (lookup (task_key atespace name) s.tasks)) [
    | inl e ↦ rw (e, get_task) refl
    | inr (t, e) ↦ rw (e, get_task) refl
  ]

  get_task-of :
      (atespace name : String) (s : MemoryStore R S M) (m : Map (Task R)) (o : Option (Task R))
      → s.tasks ≡ m
      → lookup (task_key atespace name) m ≡ o
      → get_task atespace name s ≡ found_or_not o
  get_task-of atespace name s m o e h =
      get_task-eq atespace name s ∙ ap found_or_not (ap (lookup (task_key atespace name)) e ∙ h)

  get_task-same :
      (atespace name : String) (s s' : MemoryStore R S M)
      → lookup (task_key atespace name) s'.tasks ≡ lookup (task_key atespace name) s.tasks
      → get_task atespace name s' ≡ get_task atespace name s
  get_task-same atespace name s s' h =
      get_task-eq atespace name s' ∙ ap found_or_not h ∙ sym (get_task-eq atespace name s)

  -- The store `s'` differs from `s` in the task under this key only, which it reads as `o`.
  pub record Sets (key : String) (o : Result StoreError (Task R)) (s s' : MemoryStore R S M)
      : Type 0 where
    pub there :
        (atespace name : String) → task_key atespace name ≡ key → get_task atespace name s' ≡ o
    pub elsewhere :
        (atespace name : String)
        → task_key atespace name ≢ key
        → get_task atespace name s' ≡ get_task atespace name s

  insert-Sets :
      (key : String) (t : Task R) (s s' : MemoryStore R S M)
      → s'.tasks ≡ insert key t s.tasks
      → Sets key (ok t) s s'
  insert-Sets key t s s' e = record {
    there = λ a n k.
        get_task-of a n s' (insert key t s.tasks) (some t) e
          (ap (λ j. lookup j (insert key t s.tasks)) k ∙ lookup-insert_self key t s.tasks);
    elsewhere = λ a n k. get_task-same a n s s' (
        ap (lookup (task_key a n)) e
        ∙ lookup-insert_ne key (task_key a n) t s.tasks (λ j. k (sym j)));
  }

  -- `SaveTask` of a task with a name answers the task with its defaults, the atespace "default" and the
  -- phase "Pending", reads as that under the task's key, and changes no other task.
  pub save_task-Sets :
      (now : String) (t : Task R) (s : MemoryStore R S M)
      → (meta_of t.metadata).name ≢ ""
      → ((save_task now t s).0 ≡ ok (completed t))
        × IsCompleted t (completed t)
        × Sets
            (task_key
              (default_atespace (meta_of t.metadata)).atespace
              (default_atespace (meta_of t.metadata)).name)
            (ok (completed t))
            s
            (save_task now t s).1
  unfolding save_task
  save_task-Sets now t s named = elim (String-cases (meta_of t.metadata).name "") [
    | inl p ↦ absurd (named p.0)
    | inr p ↦ rw p.1 (
      refl,
      completed-IsCompleted t,
      insert-Sets _ (completed t) s _ (written _ _ (completed t) true detached s),
    )
  ]

  -- `MarkTaskDeleting` keeps a task and sets its phase to "Terminating"; it answers not-found and
  -- changes nothing where there is no task.
  pub mark_task_deleting-Sets :
      (now atespace name : String) (s : MemoryStore R S M)
      → ((get_task atespace name s ≡ err not_found)
          → mark_task_deleting now atespace name s ≡ (err not_found, s))
        × ((t : Task R)
            → get_task atespace name s ≡ ok t
            → ((mark_task_deleting now atespace name s).0 ≡ ok tt)
              × Sets
                  (task_key atespace name)
                  (ok (record t {
                    status = some (record (status_of t.status) { phase = "Terminating" });
                  }))
                  s
                  (mark_task_deleting now atespace name s).1)
  unfolding mark_task_deleting get_task
  mark_task_deleting-Sets now atespace name s = (missing, found)
    where
      missing :
          (get_task atespace name s ≡ err not_found)
          → mark_task_deleting now atespace name s ≡ (err not_found, s)
      missing h = elim (Option-cases (lookup (task_key atespace name) s.tasks)) [
        | inl e ↦ rw (e, mark_task_deleting) refl
        | inr (t, e) ↦ cc (rw (e, get_task) at h)
      ]

      found :
          (t : Task R)
          → get_task atespace name s ≡ ok t
          → ((mark_task_deleting now atespace name s).0 ≡ ok tt)
            × Sets
                (task_key atespace name)
                (ok (record t {
                  status = some (record (status_of t.status) { phase = "Terminating" });
                }))
                s
                (mark_task_deleting now atespace name s).1
      found t h = elim (Option-cases (lookup (task_key atespace name) s.tasks)) [
        | inl e ↦ cc (rw (e, get_task) at h)
        | inr (u, e) ↦
            let same : u ≡ t = cc (rw (e, get_task) at h) in
            rw (e ∙ ap some same, mark_task_deleting)
              (refl, insert-Sets _ _ s _ (written _ _ _ false _ s))
      ]

  -- After `DeleteTask` the task is not found, and every other task is as it was.
  pub delete_task-Sets :
      (atespace name : String) (s : MemoryStore R S M)
      → Sets (task_key atespace name) (err not_found) s (delete_task atespace name s)
  unfolding delete_task
  delete_task-Sets atespace name s =
      let key = task_key atespace name in
      record {
        there = λ a n k.
            get_task-of a n (delete_task atespace name s) (delete key s.tasks) none refl
              (lookup-delete key (task_key a n) s.tasks ∙ rw (k, eq_refl) refl);
        elsewhere = λ a n k.
            get_task-same a n s (delete_task atespace name s)
              (lookup-delete key (task_key a n) s.tasks ∙ other_key key (task_key a n) s.tasks k);
      }
