-- ===== src/Graph/Store/Guarded.antt =====
-- What `Locked` does with its operation (engine/ax/internal/taskgraph/store.go).
use Prim.Native.String as Strings
use task_a.Prelude.{
  String, ℕ, Bool, true, false, Option, none, some, Result, ok, err, Exec, ◌≡◌, refl, sym, ap, ◌∙◌,
}
use task_a.Graph.Store.{LockClient, LockError, key, acquire, give_back, locked, under, released}
use task_a.Graph.Store.Exclusion.{IsLock}

abbrev pub lock_key : (project id : String) → String
lock_key project id = Strings.◌++◌ (key project id) ":lock"

abbrev pub IsError : {E A : Type 0} → Result E A → Type 0
IsError (ok a) = ⊥
IsError (err e) = Unit

-- The operation's own answer.
abbrev pub outcome : {E A : Type 0} → Result E A → Result (LockError E) A
outcome (ok a) = ok a
outcome (err e) = err (LockError.inner e)

module _ {W : Type 0} (c : LockClient W) (holder : W → String → Option (String × ℕ))
    (elapse : ℕ → W → W) where
  still_held :
      (lock : IsLock c holder elapse) (k owner : String) (h : String × ℕ) (w : W)
      (x : Result String Bool × W)
      → acquire c k owner w ≡ x
      → holder w k ≡ some h
      → holder x.1 k ≡ some h
  still_held lock k owner h w (err e, v) same held =
      ap (λ (y : Result String Bool × W). holder y.1 k) (sym same)
      ∙ lock.failed k owner 0 h e w (ap (λ y. y.0) same) held
  still_held lock k owner h w (ok false, v) same held =
      ap (λ (y : Result String Bool × W). holder y.1 k) (sym same)
      ∙ lock.refused k owner 0 w (ap (λ y. y.0) same)
      ∙ held
  still_held lock k owner h w (ok true, v) same held =
      cc ((lock.taken k owner 0 w (ap (λ y. y.0) same)).0, held)

module _ {W E A : Type 0} (c : LockClient W) (holder : W → String → Option (String × ℕ))
    (elapse : ℕ → W → W) (project id owner : String) where
  not_taken :
      (k : String) (h : String × ℕ) (x : Result String Bool × W)
      → (x.0 ≡ ok true → ⊥)
      → holder x.1 k ≡ some h
      → (y : Result (LockError E) A × W) × ((op : Exec W E A) → under c k owner op x ≡ y)
        × IsError y.0
        × (holder y.1 k ≡ some h)
  not_taken k h (err e, v) free stays = ((err (LockError.lock_failed e), v), λ op. refl, tt, stays)
  not_taken k h (ok false, v) free stays =
      ((err (LockError.locked_by_other k), v), λ op. refl, tt, stays)
  not_taken k h (ok true, v) free stays = elim (free refl) [ ]

  -- Where someone holds the lock, `Locked` answers an error and the holder keeps the lock; the
  -- operation is not run, since answer and world are the same for all operations.
  pub locked-held :
      (lock : IsLock c holder elapse) (h : String × ℕ) (w : W)
      → holder w (lock_key project id) ≡ some h
      → (y : Result (LockError E) A × W) × ((op : Exec W E A) → locked c project id owner op w ≡ y)
        × IsError y.0
        × (holder y.1 (lock_key project id) ≡ some h)
  unfolding locked
  locked-held lock h w held =
      let k = lock_key project id in
      not_taken k h (acquire c k owner w) (λ e. cc ((lock.taken k owner 0 w e).0, held))
        (still_held c holder elapse lock k owner h w (acquire c k owner w) refl held)

  ended :
      (k : String) (x : Result E A × W)
      → released c k owner x ≡ (outcome x.0, give_back c k owner x.1)
  ended k (err e, v) = refl
  ended k (ok a, v) = refl

  -- Where the lock is taken, the operation runs once, in the world where the owner has taken the lock
  -- for good; `Locked` gives the operation's own answer, and releases the lock after it, on a success
  -- and on an error, so that it is free. The operation leaves the lock alone, and the release is
  -- answered.
  pub locked-taken :
      (lock : IsLock c holder elapse) (op : Exec W E A) (w v : W)
      → ((u : W) → holder (op u).1 (lock_key project id) ≡ holder u (lock_key project id))
      → acquire c (lock_key project id) owner w ≡ (ok true, v)
      → (c.release (lock_key project id) owner (op v).1).0 ≡ ok tt
      → (holder v (lock_key project id) ≡ some (owner, 0))
        × (locked c project id owner op w
            ≡ (outcome (op v).0, (c.release (lock_key project id) owner (op v).1).1))
        × (holder (locked c project id owner op w).1 (lock_key project id) ≡ none)
  unfolding locked
  locked-taken lock op w v quiet taken answered =
      let k = lock_key project id in
      let held : holder v k ≡ some (owner, 0) =
        ap (λ (y : Result String Bool × W). holder y.1 k) (sym taken)
        ∙ (lock.taken k owner 0 w (ap (λ y. y.0) taken)).1 in
      let ran : under c k owner op (acquire c k owner w)
          ≡ (outcome (op v).0, give_back c k owner (op v).1) =
        ap (under c k owner op) taken ∙ ended k (op v) in
      (
        held,
        ran,
        ap (λ (y : Result (LockError E) A × W). holder y.1 k) ran
            ∙ lock.freed k owner 0 (op v).1 answered (quiet v ∙ held),
      )
