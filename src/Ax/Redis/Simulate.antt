-- ===== src/Ax/Redis/Simulate.antt =====
-- The steps of an operation of the Redis store (engine/ax/internal/store/redis/store.go) against the
-- memory store.
use Prim.Native.String.{◌++◌}
use task_a.Prelude.{
  String, List, Map, Option, none, some, Result, ok, err, Exec, ◌≡◌, refl, inl, inr, Result-cases,
  ok-injective, subst,
}
use task_a.Ax.Redis.Tasks.{typed}
use task_a.Ax.Types.{Task}
use task_a.Ax.Memory.{MemoryStore, StoreError}
use task_a.Ax.Memory.Saved.{found_or_not}
use task_a.Ax.Redis.Client.{
  Client, ClientError, Codec, Command, IsRedis, RedisError, texts_after, pass, forward,
}
use task_a.Ax.Redis.Records.{decode, write_record}
use task_a.Ax.Redis.Agree.{ClientFails, typed_of, Stands, Holds, Agrees, ran-Agrees}

module _ {R : Type 0} (j : Codec (Task R)) (p : String) where
  pub Holds-eq :
      (f g : String → Option String) (s : Map (Task R))
      → ((k : String) → g k ≡ f k)
      → Holds j p f s
      → Holds j p g s
  Holds-eq f g s same holds k = rw (same (p ++ (":task:" ++ k))) (holds k)

module _ {W R S M : Type 0} (c : Client W) (j : Codec (Task R)) (texts : W → String → Option String)
    (p : String) where
  pub read-Agrees :
      (m : Option (Task R)) (s : MemoryStore R S M) (x : Result ClientError (Option String) × W)
      → ((e : ClientError) → x.0 ≡ err e → ClientFails c e)
      → ((o : Option String) → x.0 ≡ ok o → Stands j o m)
      → Holds j p (texts x.1) s.tasks
      → Agrees c j texts p (pass (λ o v. (decode j o, v)) x) (found_or_not (typed_of m), s)
  read-Agrees m s (err e, v) fails stands holds = fails e refl
  read-Agrees none s (ok none, v) fails stands holds = (refl, holds)
  read-Agrees (some t) s (ok none, v) fails stands holds = elim (stands none refl) [ ]
  read-Agrees none s (ok (some text), v) fails stands holds = elim (stands (some text) refl) [ ]
  read-Agrees (some t) s (ok (some text), v) fails stands holds =
      rw (stands (some text) refl) (refl, holds)

  pub forward-Agrees :
      {A : Type 0} (m : Option (Task R)) (s : MemoryStore R S M)
      (y : Result StoreError A × MemoryStore R S M) (rest : Task R → Exec W RedisError A)
      (x : Result RedisError (Task R) × W)
      → Agrees c j texts p x (found_or_not (typed_of m), s)
      → (m ≡ none → y ≡ (err StoreError.not_found, s))
      → ((t : Task R) (v : W)
          → m ≡ some t
          → Holds j p (texts v) s.tasks
          → Agrees c j texts p (rest (typed t) v) y)
      → Agrees c j texts p (forward rest x) y
  forward-Agrees none s y rest (ok t, v) h missing found = cc (h.0)
  forward-Agrees (some u) s y rest (ok t, v) h missing found =
      subst (λ (x : Task R). Agrees c j texts p (rest x v) y) (ok-injective (h.0))
        (found u v refl h.1)
  forward-Agrees none s y rest (err RedisError.not_found, v) h missing found =
      rw (missing refl) (refl, h.1)
  forward-Agrees (some u) s y rest (err RedisError.not_found, v) h missing found = cc (h.0)
  forward-Agrees none s y rest (err RedisError.name_required, v) h missing found = cc (h.0)
  forward-Agrees (some u) s y rest (err RedisError.name_required, v) h missing found = cc (h.0)
  forward-Agrees m s y rest (err (RedisError.unmarshaling e), v) h missing found = h
  forward-Agrees m s y rest (err (RedisError.marshaling e), v) h missing found = h
  forward-Agrees m s y rest (err (RedisError.client e), v) h missing found = h

  pub write-Agrees :
      {A : Type 0} (answer : A) (t : Task R) (commands : String → List Command) (w : W)
      (s : MemoryStore R S M)
      → IsRedis c texts
      → ((text : String)
          → j.marshal t ≡ ok text
          → Holds j p (texts_after (commands text) (texts w)) s.tasks)
      → Agrees c j texts p (write_record c j t commands answer w) (ok answer, s)
  write-Agrees answer t commands w s redis holds = elim (Result-cases (j.marshal t)) [
    | inr (e, q) ↦ rw (q) (t, q)
    | inl (text, q) ↦ rw (q) (
        ran-Agrees c j texts p answer s (c.exec (commands text) w)
          (λ e f. inl (commands text, w, f))
          (λ f.
            Holds-eq j p (texts_after (commands text) (texts w))
              (texts (c.exec (commands text) w).1) s.tasks (λ k. redis.execs (commands text) w k f)
              (holds text q)))
  ]
