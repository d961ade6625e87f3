-- ===== src/Ax/Redis/Agree.antt =====
-- The tasks in Redis and the tasks in memory (engine/ax/internal/store/redis/store.go and
-- engine/ax/internal/store/memory/store.go).
use Prim.Native.String.{◌++◌}
use task_a.Prelude.{
  String, List, Map, lookup, insert, delete, lookup-insert_self, lookup-insert_ne, lookup-delete,
  subst, Option, none, some, Result, ok, err, ◌==◌, if◌then◌else◌, ◌≡◌, refl, ◌⊎◌, inl, inr,
  String-cases, eq_refl, eq_false,
}
use task_a.Ax.Types.{Task}
use task_a.Ax.Memory.{MemoryStore, StoreError}
use task_a.Ax.Redis.Client.{Client, ClientError, Codec, Command, RedisError, pass}
use task_a.Ax.Redis.Tasks.{typed}
use text.Mathlib.TextLemmas.{append_cancel_left}

module _ {W : Type 0} (c : Client W) where
  -- An error that a call of the client answered.
  abbrev pub ClientFails : ClientError → Type 0
  ClientFails e =
      ((cs : List Command) × (w : W) × ((c.exec cs w).0 ≡ err e))
      ⊎ ((k : String) × (w : W) × ((c.get k w).0 ≡ err e))

module _ {R : Type 0} (j : Codec (Task R)) where
  -- The value of a key stands for this task, with its API version and kind filled in, or for none.
  abbrev pub Stands : Option String → Option (Task R) → Type 0
  Stands none none = Unit
  Stands (some text) (some t) = j.unmarshal text ≡ ok (typed t)
  Stands none (some t) = ⊥
  Stands (some text) none = ⊥

module _ {A B E S : Type 0} where
  abbrev pub answered : (A → B) → Result E A × S → Result E B × S
  answered f (ok a, s) = (ok (f a), s)
  answered f (err e, s) = (err e, s)

abbrev pub typed_of : {R : Type 0} → Option (Task R) → Option (Task R)
typed_of none = none
typed_of (some t) = some (typed t)

module _ (p : String) where
  key-injective : (k k' : String) → p ++ (":task:" ++ k) ≡ p ++ (":task:" ++ k') → k ≡ k'
  key-injective k k' h = append_cancel_left ":task:" k k' (append_cancel_left p _ _ h)

module _ {R : Type 0} (j : Codec (Task R)) (p : String) where
  -- The values of Redis stand for the tasks of the memory store, key by key.
  abbrev pub Holds : (String → Option String) → Map (Task R) → Type 0
  Holds f s = (key : String) → Stands j (f (p ++ (":task:" ++ key))) (lookup key s)

  -- A record that is written stands for the task that was put into the memory store.
  pub set-Holds :
      (f : String → Option String) (s s' : Map (Task R)) (key text : String) (t : Task R)
      → Holds f s
      → j.unmarshal text ≡ ok (typed t)
      → s' ≡ insert key t s
      → Holds (λ k. if (p ++ (":task:" ++ key)) == k then some text else f k) s'
  set-Holds f s s' key text t holds u e k = elim (String-cases key k) [
    | inl q ↦
        subst
          (λ (k : String).
            Stands j
              (if (p ++ (":task:" ++ key)) == (p ++ (":task:" ++ k))
                then some text
                else f (p ++ (":task:" ++ k)))
              (lookup k s'))
          q.0 (rw (e, lookup-insert_self, eq_refl) u)
    | inr q ↦
        rw (e, lookup-insert_ne key k t s q.0, eq_false _ _ (λ h. q.0 (key-injective p key k h)))
          (holds k)
  ]

  pub del-Holds :
      (f : String → Option String) (s s' : Map (Task R)) (key : String)
      → Holds f s
      → s' ≡ delete key s
      → Holds (λ k. if (p ++ (":task:" ++ key)) == k then none else f k) s'
  del-Holds f s s' key holds e k = elim (String-cases key k) [
    | inl q ↦
        subst
          (λ (k : String).
            Stands j
              (if (p ++ (":task:" ++ key)) == (p ++ (":task:" ++ k))
                then none
                else f (p ++ (":task:" ++ k)))
              (lookup k s'))
          q.0 (rw (e, lookup-delete, eq_refl (p ++ (":task:" ++ key)), eq_refl key) tt)
    | inr q ↦
        rw (e, lookup-delete, q.1, eq_false _ _ (λ h. q.0 (key-injective p key k h))) (holds k)
  ]

module _ {W R S M : Type 0} (c : Client W) (j : Codec (Task R)) (texts : W → String → Option String)
    (p : String) where
  -- An answer of Redis agrees with the answer of the memory store: either they are the same and the
  -- stores still agree, or Redis answers an error of its client or of the encoder.
  abbrev pub Agrees :
      {A : Type 0} → Result RedisError A × W → Result StoreError A × MemoryStore R S M → Type 0
  Agrees (ok a, w) x = (x.0 ≡ ok a) × Holds j p (texts w) x.1.tasks
  Agrees (err RedisError.not_found, w) x =
      (x.0 ≡ err StoreError.not_found) × Holds j p (texts w) x.1.tasks
  Agrees (err RedisError.name_required, w) x =
      (x.0 ≡ err StoreError.name_required) × Holds j p (texts w) x.1.tasks
  Agrees (err (RedisError.unmarshaling e), w) x = ⊥
  Agrees (err (RedisError.marshaling e), w) x = (t : Task R) × (j.marshal t ≡ err e)
  Agrees (err (RedisError.client e), w) x = ClientFails c e

  -- The end of a transaction.
  pub ran-Agrees :
      {A : Type 0} (answer : A) (s : MemoryStore R S M) (x : Result ClientError (Unit {0}) × W)
      → ((e : ClientError) → x.0 ≡ err e → ClientFails c e)
      → (x.0 ≡ ok tt → Holds j p (texts x.1) s.tasks)
      → Agrees {A = A} (pass (λ _ v. (ok answer, v)) x) (ok answer, s)
  ran-Agrees answer s (err e, v) fails holds = fails e refl
  ran-Agrees answer s (ok u, v) fails holds = (refl, holds refl)
