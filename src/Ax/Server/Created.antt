-- ===== src/Ax/Server/Created.antt =====
-- The task that `CreateTask` (engine/ax/internal/server/server.go) makes in the in-memory store
-- (engine/ax/internal/store/memory/store.go).
use task_a.Prelude.{
  String, ℕ, Option, none, some, ok, err, ◌≡◌, refl, sym, ap, ◌∙◌, ok-injective, String-cases, inl,
  inr, ◌==◌, if◌then◌else◌,
}
use task_a.Ax.Types.{ObjectMeta, Task, validate_task, meta_of}
use task_a.Ax.Memory.{not_found, task_key, get_task, completed, status_of, save_task}
use task_a.Ax.Memory.Saved.{save_task-Sets, completed-IsCompleted}
use task_a.Ax.Server.{or_default, create_task, new_task, stamped}
use task_a.Ax.Server.Guarded.{create_task-eq-ok}
use task_a.Ax.Server.OnMemory.{
  memory, World, key_of, key_of-default_atespace, key_of-stamped, task_key-or_default, get_task-key,
}

module _ (R S M : Type 0) (time : String) (now : ℕ) where
  -- The task that a request makes: suspended, in the atespace "default" where none is given, and stamped
  -- with the time of the call where it has no creation time; all else is kept.
  abbrev pub IsNew : (t t' : Task R) → Type 0
  IsNew t t' =
      let m = meta_of t.metadata in
      t' ≡ record t {
        metadata = some (record m {
          atespace = if m.atespace == "" then "default" else m.atespace;
          creation_timestamp = elim m.creation_timestamp [ none ↦ some now | some c ↦ some c ];
        });
        status = some (record (status_of t.status) { phase = "Suspended" });
      }

  stamped_lem :
      (m : ObjectMeta)
      → stamped now m ≡ record m {
        creation_timestamp = elim m.creation_timestamp [ none ↦ some now | some c ↦ some c ];
      }
  stamped_lem m = go m.creation_timestamp refl
    where
      go :
          (c : Option ℕ)
          → m.creation_timestamp ≡ c
          → elim c [ none ↦ record m { creation_timestamp = some now } | some x ↦ m ]
            ≡ record m { creation_timestamp = elim c [ none ↦ some now | some x ↦ some x ] }
      go none e = refl
      go (some x) e = ap (λ (c : Option ℕ). record m { creation_timestamp = c }) e

  or_default_twice :
      (a : String)
      → (if or_default a == "" then "default" else or_default a)
        ≡ (if a == "" then "default" else a)
  or_default_twice a = elim (String-cases a "") [ inl p ↦ rw p.1 refl | inr p ↦ rw (p.1, p.1) refl ]

  abbrev created_from : Task R → Task R
  created_from t = new_task (memory {R = R} {S = S} {M = M} time) now t

  completed-IsNew : (t : Task R) → IsNew t (completed (created_from t))
  completed-IsNew t =
      let m = meta_of t.metadata in
      let with_meta : ObjectMeta → Task R = λ x. record t {
        metadata =
            some (record x { atespace = if x.atespace == "" then "default" else x.atespace });
        status = some (record (status_of t.status) { phase = "Suspended" });
      } in
      let with_atespace : String → Task R = λ a. record t {
        metadata = some (record m {
          atespace = a;
          creation_timestamp = elim m.creation_timestamp [ none ↦ some now | some c ↦ some c ];
        });
        status = some (record (status_of t.status) { phase = "Suspended" });
      } in
      completed-IsCompleted (created_from t)
      ∙ ap with_meta (stamped_lem (record m { atespace = or_default m.atespace }))
      ∙ ap with_atespace (or_default_twice m.atespace)

  -- A save that answers a task.
  saved_lem :
      (x t' : Task R) (s s' : World R S M time now)
      → save_task time x s ≡ (ok t', s')
      → (t' ≡ completed x)
        × ((a n : String) → task_key a n ≡ key_of (meta_of x.metadata) → get_task a n s' ≡ ok t')
  unfolding save_task
  saved_lem x t' s s' h = elim (String-cases (meta_of x.metadata).name "") [
    | inl p ↦ cc (rw (p.1, save_task) at h)
    | inr p ↦
        let sets = save_task-Sets time x s p.0 in
        let same : t' ≡ completed x = ok-injective (sym (ap (λ y. y.0) h) ∙ sets.0) in
        (
          same,
          λ a n k.
              ap (get_task a n) (sym (ap (λ y. y.1) h))
              ∙ sets.2.there a n (k ∙ sym (key_of-default_atespace (meta_of x.metadata)))
              ∙ ap ok (sym same),
        )
  ]

  -- Where `CreateTask` over the in-memory store answers a task, the request was valid, the store had no
  -- task under its atespace and name, and the answer is the task that the request makes, suspended,
  -- which the store then holds under that atespace and name.
  pub create_task-Creates :
      (t t' : Task R) (s s' : World R S M time now)
      → create_task (memory {R = R} {S = S} {M = M} time) now (some t) s ≡ (ok t', s')
      → (validate_task t ≡ ok tt)
        × (get_task (meta_of t.metadata).atespace (meta_of t.metadata).name s ≡ err not_found)
        × IsNew t t'
        × (get_task (meta_of t.metadata).atespace (meta_of t.metadata).name s' ≡ ok t')
  create_task-Creates t t' s s' h =
      let m = meta_of t.metadata in
      let (valid, free, saved) =
        create_task-eq-ok (memory {R = R} {S = S} {M = M} time) now t t' s s' h in
      let (same, there) = saved_lem (created_from t) t' s s' saved in
      let key = task_key-or_default m.atespace m.name in
      (
        valid,
        get_task-key R S M time now m.atespace m.name (or_default m.atespace) m.name s (sym key)
            ∙ free,
        same ∙ completed-IsNew t,
        there m.atespace m.name
            (sym (key_of-stamped now (record m { atespace = or_default m.atespace }) ∙ key)),
      )
