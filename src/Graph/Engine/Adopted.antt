-- ===== src/Graph/Engine/Adopted.antt =====
-- What a success of the engine means in every state that is reached, and what `Apply` does with an
-- earlier state (engine/ax/internal/taskgraph/engine.go, model.go).
use task_a.Prelude.{
  String, true, false, List, [], ◌∷◌, Map, lookup, lookup-nil, insert, some, ok, ◌≡◌, refl, sym, ap,
  Memᴰ, Bool-cases, Option-cases, inl, inr, ◌⊎◌, subst,
}
use task_a.Graph.Model.{
  Plan, Node, Input, Attempt, Phase, State, starting, running, stopping, validating,
  validation_stopping, succeeded, failed, suspended,
}
use task_a.Graph.Progress.{
  is_succeeded, has_succeeded, all_succeeded, complete, output_of, add_inputs, files_of, insert_all,
}
use task_a.Graph.Engine.Defs.{
  Backend, Digests, is_settled, carry_over, apply, next_revision, int_eq,
}
use task_a.Graph.Engine.Honest.{IsAdopted, Backing}
use task_a.Graph.Engine.Keep.{NoCollision, Entry-of_lookup}
use task_a.Graph.Engine.Life.{Reach, Reach-IsSound, apply-revise, revise-cases, carry_over-origin}

-- In every state that the engine reaches, whatever the world answered, a task of the plan that has
-- succeeded was adopted: its attempt holds a clean candidate of its own actor with the declared
-- outputs, its own validator passed it, and the task's outputs are the candidate's files. The digest
-- of a task is taken to determine its declared outputs.
pub Reach-IsAdopted :
    {W : Type 0} (b : Backend W) (d : Digests) (scope : String)
    → NoCollision d
    → (s : State) (n : Node) (a : Attempt) → Reach b d scope s
    → Memᴰ n s.plan.tasks
    → lookup n.id s.attempts ≡ some a
    → a.phase ≡ succeeded
    → IsAdopted n.outputs a
Reach-IsAdopted b d scope c s n a r m at e =
    let entry = Entry-of_lookup d s n a (Reach-IsSound b d scope c r) m at in
    subst (Backing n.outputs a) e entry.honest

pub is_succeeded-eq : (p : Phase) → is_succeeded p ≡ true → p ≡ succeeded
unfolding is_succeeded
is_succeeded-eq succeeded h = refl
is_succeeded-eq starting h = cc
is_succeeded-eq running h = cc
is_succeeded-eq stopping h = cc
is_succeeded-eq validating h = cc
is_succeeded-eq validation_stopping h = cc
is_succeeded-eq failed h = cc
is_succeeded-eq suspended h = cc

pub has_succeeded-eq :
    (id : String) (m : Map Attempt)
    → has_succeeded id m ≡ true
    → (a : Attempt) × (lookup id m ≡ some a) × (a.phase ≡ succeeded)
unfolding has_succeeded
has_succeeded-eq id m h = elim (Option-cases (lookup id m)) [
  | inl e ↦ cc (rw (e, has_succeeded) at h)
  | inr (a, e) ↦ (a, e, is_succeeded-eq a.phase (rw (e, has_succeeded) at h))
]

all_succeeded-mem :
    (ns : List Node) (m : Map Attempt) (n : Node)
    → all_succeeded ns m ≡ true
    → Memᴰ n ns
    → has_succeeded n.id m ≡ true
unfolding all_succeeded
all_succeeded-mem [] m n h k = elim k [ ]
all_succeeded-mem (x ∷ ns) m n h k = elim (Bool-cases (has_succeeded x.id m)) [
  | inr e ↦ cc (rw (e, all_succeeded) at h)
  | inl e ↦ pick k e (λ l. all_succeeded-mem ns m n (rw (e, all_succeeded) at h) l)
]
  where
    pick :
        Memᴰ n (x ∷ ns)
        → has_succeeded x.id m ≡ true
        → (Memᴰ n ns → has_succeeded n.id m ≡ true)
        → has_succeeded n.id m ≡ true
    pick (Memᴰ.head p) e ih = subst (λ (y : Node). has_succeeded y.id m ≡ true) (sym p) e
    pick (Memᴰ.tail l) e ih = ih l

complete-all : (s : State) → complete s ≡ true → all_succeeded s.plan.tasks s.attempts ≡ true
unfolding complete
complete-all s h = elim (Bool-cases s.paused) [
  | inl e ↦ cc (rw (e, complete) at h)
  | inr e ↦ rw (e, complete) at h
]

-- In a state that the engine reaches and `Complete` reports finished, every task of the plan has an
-- attempt that was adopted. The digest of a task is taken to determine its declared outputs.
pub complete-IsAdopted :
    {W : Type 0} (b : Backend W) (d : Digests) (scope : String)
    → NoCollision d
    → (s : State) (n : Node) → Reach b d scope s
    → complete s ≡ true
    → Memᴰ n s.plan.tasks
    → (a : Attempt) × (lookup n.id s.attempts ≡ some a) × IsAdopted n.outputs a
complete-IsAdopted b d scope c s n r h m =
    let (a, at, e) =
      has_succeeded-eq n.id s.attempts
        (all_succeeded-mem s.plan.tasks s.attempts n (complete-all s h) m) in
    (a, at, Reach-IsAdopted b d scope c s n a r m at e)

-- The producer of an input succeeded, and has the output.
pub record IsReady (attempts : Map Attempt) (i : Input) : Type 0 where
  pub producer : Attempt
  pub stored : lookup i.task attempts ≡ some producer
  pub done : producer.phase ≡ succeeded
  pub value : String
  pub held : lookup i.output producer.outputs ≡ some value

output_of-IsReady :
    (m : Map Attempt) (i : Input) (v : String) → output_of m i ≡ some v → IsReady m i
unfolding output_of
output_of-IsReady m i v h = elim (Option-cases (lookup i.task m)) [
  | inl e ↦ cc (rw (e, output_of) at h)
  | inr (a, e) ↦ elim (Bool-cases (is_succeeded a.phase)) [
    | inr q ↦ cc (rw (e, q, output_of) at h)
    | inl q ↦ record {
      producer = a;
      stored = e;
      done = is_succeeded-eq a.phase q;
      value = v;
      held = rw (e, q, output_of) at h;
    }
  ]
]

add_inputs-IsReady :
    (m : Map Attempt) (is : Map Input) (f files : Map String) (k : String) (i : Input)
    → add_inputs m is f ≡ some files
    → Memᴰ (k, i) is
    → IsReady m i
unfolding add_inputs
add_inputs-IsReady m [] f files k i h l = elim l [ ]
add_inputs-IsReady m ((j, x) ∷ is) f files k i h l = elim (Option-cases (output_of m x)) [
  | inl e ↦ cc (rw (e, add_inputs) at h)
  | inr (v, e) ↦
      pick l (output_of-IsReady m x v e)
        (add_inputs-IsReady m is (insert_one v) files k i (rw (e, add_inputs) at h))
]
  where
    insert_one : String → Map String
    insert_one v = insert j v f

    pick : Memᴰ (k, i) ((j, x) ∷ is) → IsReady m x → (Memᴰ (k, i) is → IsReady m i) → IsReady m i
    pick (Memᴰ.head p) r ih = subst (IsReady m) (sym (ap (λ y. y.1) p)) r
    pick (Memᴰ.tail t) r ih = ih t

-- `Files` answers only where every input of the task is ready: the producer's attempt succeeded and
-- holds the named output.
pub files_of-IsReady :
    (s : State) (n : Node) (files : Map String) (f : String) (i : Input)
    → files_of s n ≡ some files
    → Memᴰ (f, i) n.inputs
    → IsReady s.attempts i
unfolding files_of
files_of-IsReady s n files f i h m =
    add_inputs-IsReady s.attempts n.inputs (insert_all n.files []) files f i h m

carry_over-settled :
    (m previous result : Map Attempt) (id : String) (a : Attempt)
    → carry_over m previous ≡ ok result
    → Memᴰ (id, a) m
    → is_settled a.phase ≡ true
unfolding carry_over
carry_over-settled [] previous result id a h k = elim k [ ]
carry_over-settled ((j, x) ∷ m) previous result id a h k = elim (Bool-cases (is_settled x.phase)) [
  | inr e ↦ cc (rw (e, carry_over) at h)
  | inl e ↦ pick k e (
      carry_over-settled m (elim x.phase [ succeeded ↦ insert j x previous | _ ↦ previous ]) result
        id a (rw (e, carry_over) at h))
]
  where
    pick :
        Memᴰ (id, a) ((j, x) ∷ m)
        → is_settled x.phase ≡ true
        → (Memᴰ (id, a) m → is_settled a.phase ≡ true)
        → is_settled a.phase ≡ true
    pick (Memᴰ.head p) e ih =
        subst (λ (y : Attempt). is_settled y.phase ≡ true) (sym (ap (λ y. y.1) p)) e
    pick (Memᴰ.tail t) e ih = ih t

-- What replaces a state: a plan of the same id and the next revision, no attempt, and only earlier
-- successes to be reused.
pub record IsNext (old : State) (p : Plan) (s : State) : Type 0 where
  pub plan : s.plan ≡ p
  pub same_id : p.id ≡ old.plan.id
  pub revision : int_eq p.revision (next_revision old.plan.revision) ≡ true
  pub settled : (id : String) (a : Attempt) → Memᴰ (id, a) old.attempts → is_settled a.phase ≡ true
  pub empty : s.attempts ≡ []
  pub unpaused : s.paused ≡ false
  pub reusable :
      (id : String) (a : Attempt)
      → lookup id s.previous ≡ some a
      → Memᴰ (id, a) old.attempts × (a.phase ≡ succeeded)

-- Where `Apply` accepts a plan over an earlier state, the state is unchanged, or the plan is the next
-- revision under the same id, every earlier attempt had settled, and the new state holds no attempt
-- and only successes of the earlier one to reuse.
pub apply-IsNext :
    (d : Digests) (old : State) (p : Plan) (s : State)
    → apply d (some old) p ≡ ok s
    → (s ≡ old) ⊎ IsNext old p s
apply-IsNext d old p s h = elim (revise-cases d old s p (apply-revise d old s p h)) [
  | inl q ↦ inl q
  | inr (same, next, (previous, c, q)) ↦ inr (
      subst (IsNext old p) (sym q) (record {
        plan = refl;
        same_id = same;
        revision = next;
        settled = λ id a m. carry_over-settled old.attempts [] previous id a c m;
        empty = refl;
        unpaused = refl;
        reusable = λ id a e. elim (carry_over-origin old.attempts [] previous id a c e) [
          | inl z ↦ cc (lookup-nil {V = Attempt} id, z)
          | inr m ↦ m
        ];
      }))
]
