-- ===== src/Ax/Redis/RoundTrip.antt =====
-- A task that the Redis store (engine/ax/internal/store/redis/store.go) was given, read back.
use Prim.Native.String.{◌++◌}
use Prim.Native.String.append
use text.Mathlib.TextLemmas.{append_cancel_left}
use task_a.Prelude.{
  String, Bool, true, false, nat_eq, code, ℕ, List, [], ◌∷◌, Option, some, Result, ok, err, ◌==◌,
  if◌then◌else◌, ◌≡◌, ◌≢◌, refl, sym, ap, ◌∙◌, inl, inr, String-cases, Result-cases, eq_refl,
  eq_false, true≢false,
}
use task_a.Ax.Types.{Task, TaskStatus, meta_of}
use task_a.Ax.Memory.{completed, default_atespace, status_of}
use task_a.Ax.Memory.Saved.{completed-IsCompleted}
use task_a.Ax.Redis.Client.{
  Client, ClientError, Codec, Command, IsFaithful, IsRedis, RedisError, texts_after, pass, forward,
}
use task_a.Ax.Redis.Keys.{task_key, task_channel}
use task_a.Ax.Redis.Records.{get_record, write_record, decode, parsed}
use task_a.Ax.Redis.Tasks.{Options, typed, tasks_of, save_task, get_task, update_task_status}
use task_a.Ax.Redis.Listed.{IsUp, get_record-eq}
use task_a.Ax.Redis.Implements.{default_atespace-nonempty}

-- The task with the defaults of the Redis store, and all else kept.
abbrev pub IsStored : {R : Type 0} (t t' : Task R) → Type 0
IsStored t t' =
    let m = meta_of t.metadata in
    let s = status_of t.status in
    t' ≡ record t {
      api_version = if t.api_version == "" then "ax.io/v1alpha1" else t.api_version;
      kind = if t.kind == "" then "Task" else t.kind;
      metadata = some (record m { atespace = if m.atespace == "" then "default" else m.atespace });
      status = some (record s { phase = if s.phase == "" then "Pending" else s.phase });
    }

is_colon : String → Bool
is_colon String.[] = false
is_colon (String.◌∷◌ c s) = nat_eq (code c) 58

colon_first : (s : String) → is_colon ("" ++ (":" ++ s)) ≡ true
unfolding is_colon
colon_first s = rw (append.nil (":" ++ s), append.cons ":" "" s) refl

letter_first : (s : String) → is_colon ("default" ++ s) ≡ false
unfolding is_colon
letter_first s = rw (append.cons "d" "efault" s) refl

other_key : (p name : String) → task_key p "" name ≢ task_key p "default" name
other_key p name h = true≢false (
    sym (colon_first name)
    ∙ ap is_colon (append_cancel_left ":task:" _ _ (append_cancel_left p _ _ h))
    ∙ letter_first (":" ++ name))

module _ {W R : Type 0} (c : Client W) (j : Codec (Task R)) (texts : W → String → Option String)
    (redis : IsRedis c texts) where
  -- A transaction over a message that is answered has left the values that its commands leave.
  wrote :
      {A : Type 0} (t : Task R) (commands : String → List Command) (answer a : A) (w : W)
      → (write_record c j t commands answer w).0 ≡ ok a
      → (text : String) × (j.marshal t ≡ ok text)
        × (answer ≡ a)
        × ((k : String)
            → texts (write_record c j t commands answer w).1 k
              ≡ texts_after (commands text) (texts w) k)
  wrote t commands answer a w h = elim (Result-cases (j.marshal t)) [
    | inr (e, q) ↦ cc (rw (q) at h)
    | inl (text, q) ↦
        let (same, kept) =
          after (c.exec (commands text) w) (λ k f. redis.execs (commands text) w k f)
            (rw (q) at h) in
        (text, q, same, λ k. rw (q) (kept k))
  ]
    where
      after :
          {f : String → Option String} (x : Result ClientError (Unit {0}) × W)
          → ((k : String) → x.0 ≡ ok tt → texts x.1 k ≡ f k)
          → (pass (λ _ v. (ok answer, v)) x).0 ≡ ok a
          → (answer ≡ a) × ((k : String) → texts (pass (λ _ v. (ok answer, v)) x).1 k ≡ f k)
      after (err e, v) kept g = cc (g)
      after (ok u, v) kept g = (cc (g), λ k. kept k refl)

  updated :
      (commands : String → List Command) (change : Task R → Task R)
      (x : Result RedisError (Task R) × W)
      → (forward (λ t. write_record c j (change t) commands tt) x).0 ≡ ok tt
      → (text : String) × ((k : String)
          → texts (forward (λ t. write_record c j (change t) commands tt) x).1 k
            ≡ texts_after (commands text) (texts x.1) k)
  updated commands change (err e, v) h = cc (h)
  updated commands change (ok t, v) h =
      let (text, e, same, kept) = wrote (change t) commands tt tt v h in (text, kept)

  read_world :
      {A B : Type 0} (f : A → Result RedisError B) (x : Result ClientError A × W)
      → (pass (λ a v. (f a, v)) x).1 ≡ x.1
  read_world f (err e, v) = refl
  read_world f (ok a, v) = refl

  -- A task that `SaveTask` answers is the given one with its defaults, the API version and kind of a task,
  -- the atespace "default" and the phase "Pending", each where it is not given, and it is what `GetTask` then gives for its atespace and name, where reads
  -- are answered and the encoder is faithful to the task. Redis is taken to keep its values.
  pub get_task-save_task :
      (up : IsUp c) (o : Options) (score : ℕ) (t saved : Task R) (w : W)
      → IsFaithful j (typed (completed t))
      → (save_task c j o score t w).0 ≡ ok saved
      → IsStored t saved
        × ((get_task c j o
              (default_atespace (meta_of t.metadata)).atespace
              (default_atespace (meta_of t.metadata)).name
              (save_task c j o score t w).1).0
            ≡ ok saved)
  unfolding save_task get_task
  get_task-save_task up o score t saved w faithful h =
      elim (String-cases (meta_of t.metadata).name "") [
        | inl q ↦ cc (rw (q.1) at h)
        | inr q ↦
            let (text, e, same, kept) =
              wrote (typed (completed t)) _ (typed (completed t)) saved w (rw (q.1) at h) in
            let m = default_atespace (meta_of t.metadata) in
            let key = task_key o.key_prefix m.atespace m.name in
            let self : (if key == key then some text else texts w key) ≡ some text =
              rw (eq_refl key) refl in
            (
              sym same ∙ ap typed (completed-IsCompleted t),
              rw (q.1) (
                  get_record-eq c j (tasks_of o) texts redis up m.atespace m.name _
                    (default_atespace-nonempty (meta_of t.metadata))
                  ∙ ap (decode j) (kept key ∙ self)
                  ∙ ap (parsed j) (faithful text e)
                  ∙ ap ok same),
            )
      ]

  -- A status that `UpdateTaskStatus` takes under the empty atespace is not seen: it answers success, and
  -- `GetTask` with the same arguments gives what it gave before. Reads are answered, and Redis is taken
  -- to keep its values.
  pub get_task-update_task_status :
      (up : IsUp c) (o : Options) (name : String) (status : Option TaskStatus) (w : W)
      → (update_task_status c j o "" name status w).0 ≡ ok tt
      → (get_task c j o "" name (update_task_status c j o "" name status w).1).0
        ≡ (get_task c j o "" name w).0
  unfolding update_task_status get_task get_record
  get_task-update_task_status up o name status w h =
      let key = task_key o.key_prefix "default" name in
      let (text, kept) =
        updated
          (λ text.
            Command.set (task_key o.key_prefix "" name) text o.ttl
            ∷ Command.publish (task_channel o.key_prefix "" name) text
            ∷ [])
          (λ t. record t { status = status }) (get_record c j (tasks_of o) "" name w) h in
      get_record-eq c j (tasks_of o) texts redis up "default" name _ (λ e. cc)
      ∙ ap (decode j) (
          kept key
          ∙ rw (eq_false _ key (other_key o.key_prefix name)) refl
          ∙ ap (λ v. texts v key) (read_world (decode j) (c.get key w))
          ∙ redis.get_keeps key key w)
      ∙ sym (get_record-eq c j (tasks_of o) texts redis up "default" name w (λ e. cc))
