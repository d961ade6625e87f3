-- ===== src/Ax/Server/Guarded.antt =====
-- When `CreateTask` saves (engine/ax/internal/server/server.go).
use task_a.Prelude.{ℕ, some, Result, ok, err, Exec, ◌≡◌, refl, Result-cases, inl, inr, ◌∙◌}
use task_a.Ax.Types.{Task, validate_task, meta_of}
use task_a.Ax.Memory.{StoreError, not_found}
use task_a.Ax.Server.{Store, or_default, create_task, create_after, new_task, internally, settle}

module _ {W A : Type 0} where
  internally-eq-ok :
      (m : Exec W StoreError A) (w w' : W) (a : A) → internally m w ≡ (ok a, w') → m w ≡ (ok a, w')
  internally-eq-ok m w w' a h = go (m w) refl h
    where
      go : (x : Result StoreError A × W) → m w ≡ x → settle x ≡ (ok a, w') → m w ≡ (ok a, w')
      go (ok b, v) e k = e ∙ cc
      go (err b, v) e k = cc

module _ {W R S M : Type 0} (st : Store W R S M) (now : ℕ) where
  create_after-eq-ok :
      (t t' : Task R) (r : Result StoreError (Task R)) (w w' : W)
      → create_after st now t r w ≡ (ok t', w')
      → (r ≡ err not_found) × (st.save_task (new_task st now t) w ≡ (ok t', w'))
  unfolding create_after
  create_after-eq-ok t t' (ok old) w w' h = cc
  create_after-eq-ok t t' (err StoreError.not_found) w w' h =
      (refl, internally-eq-ok (st.save_task (new_task st now t)) w w' t' h)
  create_after-eq-ok t t' (err StoreError.name_required) w w' h = cc
  create_after-eq-ok t t' (err StoreError.panic) w w' h = cc

  -- Where `CreateTask` answers a task, the request was valid, the store had answered that there is no
  -- task under its atespace and name, and the answer is the one save of the request, its phase
  -- "Suspended", its atespace and creation time filled in.
  pub create_task-eq-ok :
      (t t' : Task R) (w w' : W)
      → create_task st now (some t) w ≡ (ok t', w')
      → (validate_task t ≡ ok tt)
        × ((st.get_task (or_default (meta_of t.metadata).atespace) (meta_of t.metadata).name w).0
            ≡ err not_found)
        × (st.save_task
              (new_task st now t)
              (st.get_task (or_default (meta_of t.metadata).atespace) (meta_of t.metadata).name w).1
            ≡ (ok t', w'))
  unfolding create_task
  create_task-eq-ok t t' w w' h = elim (Result-cases (validate_task t)) [
    | inr (e, v) ↦ cc (rw (v, create_task) at h)
    | inl (u, v) ↦
        let looked =
          st.get_task (or_default (meta_of t.metadata).atespace) (meta_of t.metadata).name w in
        let (free, saved) =
          create_after-eq-ok t t' looked.0 looked.1 w' (rw (v, create_task) at h) in
        (v, free, saved)
  ]
