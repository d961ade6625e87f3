-- ===== src/Ax/Server/OnMemory.antt =====
-- The server (engine/ax/internal/server/server.go) over the in-memory store
-- (engine/ax/internal/store/memory/store.go).
use task_a.Prelude.{
  String, ℕ, Option, none, some, Result, ok, err, ◌≡◌, refl, ap, ◌∙◌, Result-cases, String-cases,
  inl, inr, ◌==◌, Exec, lookup, true,
}
use task_a.Ax.Types.{ObjectMeta, Task, WorkspaceSpec, validate_task, meta_of}
use task_a.Ax.Memory.{
  MemoryStore, StoreError, not_found, panic, name_required, task_key, get_task, completed,
  default_atespace, status_of, save_task, list_tasks,
}
use task_a.Ax.Memory as Memory
use task_a.Ax.Memory.Saved.{save_task-Sets}
use task_a.Ax.Server.{
  Store, or_default, create_task, create_after, new_task, internally, settle, stamped,
}

-- The in-memory store as the server's store, at one moment.
abbrev pub memory : {R S M : Type 0} → String → Store (MemoryStore R (WorkspaceSpec S) M) R S M
memory now = record {
  save_task = λ t s. Memory.save_task now t s;
  get_task = λ a n s. (Memory.get_task a n s, s);
  list_tasks = λ a l o s. (Memory.list_tasks a l o s, s);
  update_task_status = λ a n status s. Memory.update_task_status a n status s;
  delete_task = λ a n s. (ok tt, Memory.delete_task a n s);
  mark_task_deleting = λ a n s. Memory.mark_task_deleting now a n s;
  save_workspace = λ x s. Memory.save_workspace x s;
  get_workspace = λ a n s. (Memory.get_workspace a n s, s);
  list_workspaces = λ a s. (ok (Memory.list_workspaces a s), s);
  delete_workspace = λ a n s. (ok tt, Memory.delete_workspace a n s);
  save_model = λ x s. Memory.save_model x s;
  get_model = λ a n s. (Memory.get_model a n s, s);
  list_models = λ a s. (ok (Memory.list_models a s), s);
  delete_model = λ a n s. (ok tt, Memory.delete_model a n s);
}

abbrev pub key_of : ObjectMeta → String
key_of m = task_key m.atespace m.name

pub key_of-default_atespace : (m : ObjectMeta) → key_of (default_atespace m) ≡ key_of m
unfolding task_key
key_of-default_atespace m = elim (String-cases m.atespace "") [
  | inl p ↦ rw p.1 refl
  | inr p ↦ rw (p.1, p.1) refl
]

pub task_key-or_default : (a n : String) → task_key (or_default a) n ≡ task_key a n
unfolding task_key
task_key-or_default a n = elim (String-cases a "") [
  | inl p ↦ rw p.1 refl
  | inr p ↦ rw (p.1, p.1) refl
]

pub key_of-stamped : (now : ℕ) (m : ObjectMeta) → key_of (stamped now m) ≡ key_of m
key_of-stamped now m = go m.creation_timestamp
  where
    go :
        (c : Option ℕ)
        → key_of (elim c [ none ↦ record m { creation_timestamp = some now } | some t ↦ m ])
          ≡ key_of m
    go none = refl
    go (some t) = refl

module _ {W A : Type 0} where
  internally-world : (m : Exec W StoreError A) (w : W) → (internally m w).1 ≡ (m w).1
  internally-world m w = go (m w)
    where
      go : (x : Result StoreError A × W) → (settle x).1 ≡ x.1
      go (ok b, v) = refl
      go (err b, v) = refl

module _ (R S M : Type 0) (time : String) (now : ℕ) where
  abbrev pub World : Type 0
  World = MemoryStore R (WorkspaceSpec S) M

  -- Every task that was there is there, unchanged.
  abbrev pub Keeps : World → World → Type 0
  Keeps s s' = (a n : String) (u : Task R) → get_task a n s ≡ ok u → get_task a n s' ≡ ok u

  pub get_task-key :
      (a n b m : String) (s : World) → task_key a n ≡ task_key b m → get_task a n s ≡ get_task b m s
  unfolding get_task
  get_task-key a n b m s e =
      ap (λ k. elim (lookup k s.tasks) [ none ↦ err not_found | some t ↦ ok t ]) e

  unnamed_save :
      (t : Task R) (s : World)
      → ((meta_of t.metadata).name == "") ≡ true
      → (save_task time t s).1 ≡ s
  unfolding save_task
  unnamed_save t s e = rw (e, save_task) refl

  -- A save under a key that held no task keeps every task.
  save_task-Keeps :
      (t : Task R) (s : World) (a n : String)
      → key_of (meta_of t.metadata) ≡ task_key a n
      → get_task a n s ≡ err not_found
      → Keeps s (save_task time t s).1
  save_task-Keeps t s a n same free b m u at = elim (String-cases (meta_of t.metadata).name "") [
    | inl p ↦ ap (get_task b m) (unnamed_save t s p.1) ∙ at
    | inr p ↦
        let sets = (save_task-Sets time t s p.0).2 in
        elim (String-cases (task_key b m) (key_of (default_atespace (meta_of t.metadata)))) [
          | inr q ↦ sets.elsewhere b m q.0 ∙ at
          | inl q ↦
              let there =
                get_task-key b m a n s
                  (q.0 ∙ key_of-default_atespace (meta_of t.metadata) ∙ same) in
              cc (there, at, free)
        ]
  ]

  create_after-Keeps :
      (t : Task R) (s : World) (r : Result StoreError (Task R))
      → get_task (or_default (meta_of t.metadata).atespace) (meta_of t.metadata).name s ≡ r
      → Keeps s (create_after (memory {R = R} {S = S} {M = M} time) now t r s).1
  unfolding create_after
  create_after-Keeps t s (ok old) e b m u at = at
  create_after-Keeps t s (err StoreError.name_required) e b m u at = at
  create_after-Keeps t s (err StoreError.panic) e b m u at = at
  create_after-Keeps t s (err StoreError.not_found) e b m u at =
      let x = new_task (memory {R = R} {S = S} {M = M} time) now t in
      let a = or_default (meta_of t.metadata).atespace in
      ap (get_task b m) (internally-world (λ w. save_task time x w) s)
      ∙ save_task-Keeps x s a (meta_of t.metadata).name
          (key_of-stamped now (record (meta_of t.metadata) { atespace = a })) e b m u at

  -- `CreateTask` over the in-memory store changes no task that exists, whatever it is asked.
  pub create_task-Keeps :
      (q : Option (Task R)) (s : World)
      → Keeps s (create_task (memory {R = R} {S = S} {M = M} time) now q s).1
  unfolding create_task
  create_task-Keeps none s b m u at = at
  create_task-Keeps (some t) s b m u at = elim (Result-cases (validate_task t)) [
    | inr (e, v) ↦ rw (v, create_task) at
    | inl (z, v) ↦ rw (v, create_task) (create_after-Keeps t s _ refl b m u at)
  ]
