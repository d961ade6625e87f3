-- ===== src/Graph/Live/Ready.antt =====
-- While a task of an accepted plan (engine/ax/internal/taskgraph/model.go) is unfinished, some task is
-- ready and has steps left.
use mathlib.Core.WellFounded.{Acc}
use task_a.Prelude.{
  String, ℕ, ◌<◌, true, List, [], ◌∷◌, Map, lookup, insert, has_key, has_key-eq_lookup, none, some,
  ok, ◌≡◌, ◌≢◌, refl, ap, arith, subst, Memᴰ, All-mem, Option-cases, Bool-cases, inl, inr, ◌⊎◌,
}
use task_a.Graph.Model.{
  Plan, Node, Input, RunResult, Attempt, Phase, State, starting, running, stopping, validating,
  validation_stopping, succeeded, failed, suspended,
}
use task_a.Graph.Progress.{
  is_succeeded, has_succeeded, all_succeeded, output_of, add_inputs, files_of, insert_all,
}
use task_a.Graph.Validate.{validate}
use task_a.Graph.Validate.Visit.{input_tasks}
use task_a.Graph.Validate.Sound.{validate-links}
use task_a.Graph.Validate.Acyclic.{Feeds, validate-Acc}
use task_a.Graph.Engine.Defs.{Digests}
use task_a.Graph.Engine.Adopted.{has_succeeded-eq}
use task_a.Graph.Live.Track.{rank, rank_of, OnTrack}
use task_a.Graph.Live.Visit.{IsLive}

has_succeeded-of_eq :
    (id : String) (m : Map Attempt) (a : Attempt)
    → lookup id m ≡ some a
    → a.phase ≡ succeeded
    → has_succeeded id m ≡ true
unfolding has_succeeded is_succeeded
has_succeeded-of_eq id m a at e = rw (at, has_succeeded) (ap is_succeeded e)

-- An attempt on its way that has no steps left has succeeded.
succeeded_of_rank :
    (answer : String → RunResult) (outs : List String) (a : Attempt) (p : Phase)
    → OnTrack answer outs a p
    → rank p ≡ 0
    → p ≡ succeeded
succeeded_of_rank answer outs a succeeded h e = refl
succeeded_of_rank answer outs a starting h e = absurd (omega (arith, e))
succeeded_of_rank answer outs a running h e = absurd (omega (arith, e))
succeeded_of_rank answer outs a stopping h e = absurd (omega (arith, e))
succeeded_of_rank answer outs a validating h e = absurd (omega (arith, e))
succeeded_of_rank answer outs a validation_stopping h e = absurd (omega (arith, e))
succeeded_of_rank answer outs a failed h e = elim h [ ]
succeeded_of_rank answer outs a suspended h e = elim h [ ]

lookup-of_has_key :
    (k : String) (m : Map String) → has_key k m ≡ true → (v : String) × (lookup k m ≡ some v)
lookup-of_has_key k m h = elim (Option-cases (lookup k m)) [
  | inr q ↦ q
  | inl e ↦ cc (h, has_key-eq_lookup k m, e)
]

-- Every input can be read, or one cannot.
add_inputs-cases :
    (m : Map Attempt) (is : Map Input) (f : Map String)
    → ((files : Map String) × (add_inputs m is f ≡ some files))
      ⊎ ((k : String) × (i : Input) × Memᴰ (k, i) is × (output_of m i ≡ none))
unfolding add_inputs
add_inputs-cases m [] f = inl (f, refl)
add_inputs-cases m ((k, i) ∷ is) f = elim (Option-cases (output_of m i)) [
  | inl e ↦ inr (k, i, Memᴰ.head refl, e)
  | inr (v, e) ↦ elim (add_inputs-cases m is (insert k v f)) [
    | inl (files, h) ↦ inl (files, rw (e, add_inputs) h)
    | inr (j, x, l, h) ↦ inr (j, x, Memᴰ.tail l, h)
  ]
]

input_tasks-mem :
    (k : String) (i : Input) (is : Map Input) → Memᴰ (k, i) is → Memᴰ i.task (input_tasks is)
input_tasks-mem k i [] m = elim m [ ]
input_tasks-mem k i ((j, x) ∷ is) (Memᴰ.head e) = Memᴰ.head (ap (λ y. y.1.task) e)
input_tasks-mem k i ((j, x) ∷ is) (Memᴰ.tail m) = Memᴰ.tail (input_tasks-mem k i is m)

module _ (d : Digests) (scope : String) (answer : String → RunResult) (p : Plan)
    (valid : validate p ≡ ok tt) (s : State) (live : IsLive d scope answer p s) where
  pub has_succeeded-of_rank :
      (n : Node)
      → Memᴰ n p.tasks
      → rank_of (lookup n.id s.attempts) ≡ 0
      → has_succeeded n.id s.attempts ≡ true
  has_succeeded-of_rank n m h = elim (Option-cases (lookup n.id s.attempts)) [
    | inl e ↦ absurd (omega (arith, subst (λ o. rank_of o ≡ 0) e h))
    | inr (a, e) ↦ has_succeeded-of_eq n.id s.attempts a e (
        succeeded_of_rank answer n.outputs a a.phase (live.attempts n a m e)
          (subst (λ o. rank_of o ≡ 0) e h))
  ]

  -- A task that succeeded provides each of its outputs.
  output_of-found :
      (n : Node) (i : Input)
      → Memᴰ n p.tasks
      → n.id ≡ i.task
      → Memᴰ i.output n.outputs
      → has_succeeded n.id s.attempts ≡ true
      → output_of s.attempts i ≢ none
  unfolding output_of is_succeeded
  output_of-found n i m same o h missing =
      let (a, at, e) = has_succeeded-eq n.id s.attempts h in
      let covers = subst (OnTrack answer n.outputs a) e (live.attempts n a m at) in
      let (v, held) =
        lookup-of_has_key i.output a.outputs
          (All-mem (λ f. has_key f a.outputs ≡ true) n.outputs covers o) in
      let at' : lookup i.task s.attempts ≡ some a =
        subst (λ j. lookup j s.attempts ≡ some a) same at in
      let done : is_succeeded a.phase ≡ true = ap is_succeeded e in
      cc (held, rw (at', done, output_of) at missing)

  -- A task of the plan with steps left whose inputs can all be read.
  pub record Next : Type 0 where
    pub node : Node
    pub listed : Memᴰ node p.tasks
    pub files : Map String
    pub ready : files_of s node ≡ some files
    pub left : 0 < rank_of (lookup node.id s.attempts)

  next_of :
      {id : String} (n : Node)
      → Acc (Feeds p) id
      → n.id ≡ id
      → Memᴰ n p.tasks
      → (has_succeeded n.id s.attempts ≡ true) ⊎ Next
  unfolding files_of
  next_of n (Acc.intro id below) same m = elim (Bool-cases (has_succeeded n.id s.attempts)) [
    | inl e ↦ inl e
    | inr e ↦ elim (add_inputs-cases s.attempts n.inputs (insert_all n.files [])) [
      | inl (files, h) ↦ inr (record {
        node = n;
        listed = m;
        files = files;
        ready = h;
        left =
            positive (rank_of (lookup n.id s.attempts)) (λ z. cc (has_succeeded-of_rank n m z, e));
      })
      | inr (k, i, l, missing) ↦
          let (dep, m', same', o) = validate-links p n k i valid m l in
          elim (next_of dep (below i.task (n, m, same, input_tasks-mem k i n.inputs l)) same' m') [
            | inr found ↦ inr found
            | inl done ↦ absurd (output_of-found dep i m' same' o done missing)
          ]
    ]
  ]
    where
      positive : (x : ℕ) → x ≢ 0 → 0 < x
      positive x ne = omega (arith, ne)

  all_succeeded-cases :
      (ns : List Node)
      → ((n : Node) → Memᴰ n ns → Memᴰ n p.tasks)
      → (all_succeeded ns s.attempts ≡ true) ⊎ Next
  unfolding all_succeeded
  all_succeeded-cases [] k = inl refl
  all_succeeded-cases (n ∷ ns) k =
      let m = k n (Memᴰ.head refl) in
      elim (next_of n (validate-Acc p n valid m) refl m) [
        | inr found ↦ inr found
        | inl e ↦ elim (all_succeeded-cases ns (λ x l. k x (Memᴰ.tail l))) [
          | inr found ↦ inr found
          | inl r ↦ inl (rw (e, all_succeeded) r)
        ]
      ]

  -- Every task has succeeded, or some task is ready and has steps left.
  pub succeeded_or_next : (all_succeeded p.tasks s.attempts ≡ true) ⊎ Next
  succeeded_or_next = all_succeeded-cases p.tasks (λ n m. m)
