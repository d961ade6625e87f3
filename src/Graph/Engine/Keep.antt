-- ===== src/Graph/Engine/Keep.antt =====
-- The invariant of a state of the engine, and what each step of `Tick` and `Pause`
-- (engine/ax/internal/taskgraph/engine.go) keeps, whatever the world answers.
use task_a.Prelude.{
  String, List, [], ◌∷◌, map, Map, lookup, lookup-insert, lookup-mem, insert-mem, some, Result, ok,
  err, ◌≡◌, ◌≢◌, refl, sym, ap, ◌∙◌, Memᴰ, map-mem, String-cases, inl, inr, subst,
}
use task_a.Graph.Model.{Node, Attempt, State, succeeded}
use task_a.Graph.Validate.Nodes.{IsDistinct}
use task_a.Graph.Validate.Registry.{node_id}
use task_a.Graph.Engine.Defs.{Launch, Fault, outside, nil_pointer, Backend, Digests}
use task_a.Graph.Engine.Step.{with_attempt, save_state}
use task_a.Graph.Engine.Honest.{IsHonest}

-- An attempt at the task `n`: it was made for the task's digest, and is honest.
pub record Entry (d : Digests) (n : Node) (a : Attempt) : Type 0 where
  pub files : Map String
  pub made_for : a.fingerprint ≡ d.of_work n files
  pub honest : IsHonest n.outputs a

pub record IsSound (d : Digests) (s : State) : Type 0 where
  pub distinct : IsDistinct (map node_id s.plan.tasks)
  pub attempts :
      (id : String) (a : Attempt)
      → Memᴰ (id, a) s.attempts
      → (n : Node) × Memᴰ n s.plan.tasks × (n.id ≡ id) × Entry d n a
  pub previous :
      (id : String) (a : Attempt)
      → lookup id s.previous ≡ some a
      → (n : Node) × Entry d n a × (a.phase ≡ succeeded)

-- The digest of a task and its files determines the task's outputs.
abbrev pub NoCollision : Digests → Type 0
NoCollision d =
    (n m : Node) (f g : Map String) → d.of_work n f ≡ d.of_work m g → n.outputs ≡ m.outputs

-- The later attempt has the identity of the earlier one, and a success is final.
pub record Follows (a a' : Attempt) : Type 0 where
  pub name : a'.name ≡ a.name
  pub fingerprint : a'.fingerprint ≡ a.fingerprint
  pub final : a.phase ≡ succeeded → a' ≡ a

pub Follows-refl : (a : Attempt) → Follows a a
Follows-refl a = record { name = refl; fingerprint = refl; final = λ _. refl }

pub Follows-trans : {a b c : Attempt} → Follows a b → Follows b c → Follows a c
Follows-trans {a} {b} {c} f g = record {
  name = g.name ∙ f.name;
  fingerprint = g.fingerprint ∙ f.fingerprint;
  final = λ h. let same = f.final h in g.final (ap (λ (x : Attempt). x.phase) same ∙ h) ∙ same;
}

pub record Continues (s s' : State) : Type 0 where
  pub plan : s'.plan ≡ s.plan
  pub previous : s'.previous ≡ s.previous
  pub follows :
      (id : String) (a : Attempt)
      → lookup id s.attempts ≡ some a
      → (a' : Attempt) × (lookup id s'.attempts ≡ some a') × Follows a a'

pub Continues-refl : (s : State) → Continues s s
Continues-refl s = record {
  plan = refl;
  previous = refl;
  follows = λ id a e. (a, e, Follows-refl a);
}

pub Continues-trans : {s t u : State} → Continues s t → Continues t u → Continues s u
Continues-trans {s} {t} {u} f g = record {
  plan = g.plan ∙ f.plan;
  previous = g.previous ∙ f.previous;
  follows = λ id a e.
      let (b, at, fb) = f.follows id a e in
      let (c, at', fc) = g.follows id b at in (c, at', Follows-trans fb fc);
}

pub Continues-with_attempt :
    (id : String) (a' : Attempt) (s : State)
    → ((a : Attempt) → lookup id s.attempts ≡ some a → Follows a a')
    → Continues s (with_attempt id a' s)
Continues-with_attempt id a' s h = record {
  plan = refl;
  previous = refl;
  follows = λ j a e. elim (String-cases id j) [
    | inl p ↦
        (a', rw (lookup-insert, p.1), h a (subst (λ k. lookup k s.attempts ≡ some a) (sym p.0) e))
    | inr p ↦ (a, rw (lookup-insert, p.1) e, Follows-refl a)
  ];
}

pub unique_id :
    (ns : List Node) (n m : Node)
    → IsDistinct (map node_id ns)
    → Memᴰ n ns
    → Memᴰ m ns
    → n.id ≡ m.id
    → n ≡ m
unique_id [] n m d k l e = elim k [ ]
unique_id (x ∷ ns) n m d (Memᴰ.head p) (Memᴰ.head q) e = p ∙ sym q
unique_id (x ∷ ns) n m d (Memᴰ.head p) (Memᴰ.tail l) e =
    absurd
      (d.0 (subst (λ i. Memᴰ i (map node_id ns)) (sym e ∙ ap node_id p) (map-mem node_id ns l)))
unique_id (x ∷ ns) n m d (Memᴰ.tail k) (Memᴰ.head q) e =
    absurd (d.0 (subst (λ i. Memᴰ i (map node_id ns)) (e ∙ ap node_id q) (map-mem node_id ns k)))
unique_id (x ∷ ns) n m d (Memᴰ.tail k) (Memᴰ.tail l) e = unique_id ns n m d.1 k l e

-- The attempt that is stored for a task of the plan.
pub Entry-of_lookup :
    (d : Digests) (s : State) (n : Node) (a : Attempt)
    → IsSound d s
    → Memᴰ n s.plan.tasks
    → lookup n.id s.attempts ≡ some a
    → Entry d n a
Entry-of_lookup d s n a h m at =
    let (n', m', same, entry) = h.attempts n.id a (lookup-mem n.id s.attempts at) in
    subst (λ x. Entry d x a) (unique_id s.plan.tasks n' n h.distinct m' m same) entry

pub with_attempt-IsSound :
    (d : Digests) (id : String) (n : Node) (a : Attempt) (s : State)
    → Memᴰ n s.plan.tasks
    → n.id ≡ id
    → Entry d n a
    → IsSound d s
    → IsSound d (with_attempt id a s)
with_attempt-IsSound d id n a s m same e h = record {
  distinct = h.distinct;
  attempts = λ j b k. elim (insert-mem id j a b s.attempts k) [
    | inl (p, q) ↦ (n, m, same ∙ sym p, subst (Entry d n) (sym q) e)
    | inr k' ↦ h.attempts j b k'
  ];
  previous = h.previous;
}

-- What the calls of the world, and the saves of sound states, keep of the world.
pub record Respects {W : Type 0} (b : Backend W) (d : Digests) (Q : W → Type 0) : Type 0 where
  pub ensure_keeps : (l : Launch) (w : W) → Q w → Q (b.ensure l w).1
  pub start_keeps : (name : String) (w : W) → Q w → Q (b.start name w).1
  pub result_keeps : (name : String) (w : W) → Q w → Q (b.result name w).1
  pub suspend_keeps : (name : String) (w : W) → Q w → Q (b.suspend name w).1
  pub save_keeps : (s : State) (w : W) → IsSound d s → Q w → Q (b.save s w).1

abbrev pub Outcome : Type 0 → Type 0
Outcome W = Result Fault (Unit {0}) × State × W

-- A step from `s` ends without a panic, in a sound state that continues `s`.
pub record Kept {W : Type 0} (d : Digests) (Q : W → Type 0) (s : State) (x : Outcome W)
    : Type 0 where
  pub sound : IsSound d x.1
  pub continues : Continues s x.1
  pub world : Q x.2
  pub no_panic : x.0 ≢ err nil_pointer

module _ {W : Type 0} (d : Digests) (Q : W → Type 0) where
  pub Kept-ok : (s : State) (w : W) → IsSound d s → Q w → Kept d Q s (ok tt, s, w)
  Kept-ok s w h q = record {
    sound = h;
    continues = Continues-refl s;
    world = q;
    no_panic = λ e. cc;
  }

  pub Kept-from : {s t : State} {x : Outcome W} → Continues s t → Kept d Q t x → Kept d Q s x
  Kept-from c k = record {
    sound = k.sound;
    continues = Continues-trans c k.continues;
    world = k.world;
    no_panic = k.no_panic;
  }

  -- if err := …; err != nil { return err }
  pub Kept-seq :
      (s : State) (x rest : Outcome W)
      → Kept d Q s x
      → (IsSound d x.1 → Q x.2 → Kept d Q x.1 rest)
      → Kept d Q s (elim x.0 [ err e ↦ (err e, x.1, x.2) | ok _ ↦ rest ])
  Kept-seq s (ok u, s', w') rest h k = Kept-from h.continues (k h.sound h.world)
  Kept-seq s (err e, s', w') rest h k = h

module _ {W : Type 0} (b : Backend W) (d : Digests) (scope : String) where
  -- A save returns the state that it was given, and no panic.
  pub save_state_ind :
      (P : Outcome W → Type 0) (s : State) (w : W)
      → ((r : Result Fault (Unit {0})) → r ≢ err nil_pointer → P (r, s, (b.save s w).1))
      → P (save_state b d scope s w)
  unfolding save_state
  save_state_ind P s w h = elim (b.save s w).0 as (λ r. P (answer r)) [
    | ok u ↦ h (ok tt) (λ e. cc)
    | err e ↦ h (err (outside e)) (λ q. cc)
  ]
    where
      answer : Result String (Unit {0}) → Outcome W
      answer r = elim r [
        | ok _ ↦ (ok tt, s, (b.save s w).1)
        | err e ↦ (err (outside e), s, (b.save s w).1)
      ]

  pub save_state-Kept :
      (Q : W → Type 0) (s s' : State) (w : W)
      → Respects b d Q
      → Continues s s'
      → IsSound d s'
      → Q w
      → Kept d Q s (save_state b d scope s' w)
  save_state-Kept Q s s' w v c h q =
      save_state_ind (Kept d Q s) s' w
        (λ r e. record { sound = h; continues = c; world = v.save_keeps s' w h q; no_panic = e })
