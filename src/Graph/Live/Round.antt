-- ===== src/Graph/Live/Round.antt =====
-- One call of `Tick` (engine/ax/internal/taskgraph/engine.go) in a world that answers: what moves on,
-- and what stays.
use task_a.Prelude.{
  String, ◌≤◌, ◌-◌, Bool, true, false, List, [], ◌∷◌, Map, map, lookup, insert, some, Result, ok,
  err, ◌≡◌, refl, sym, ap, ◌∙◌, arith, subst, Memᴰ, Option-cases, String-cases, Bool-cases, inl,
  inr, if◌then◌else◌,
}
use task_a.Graph.Model.{Node, Input, RunResult, Attempt, State, Plan, succeeded}
use task_a.Graph.Progress.{files_of, add_inputs, output_of, is_succeeded, insert_all}
use task_a.Graph.Validate.Nodes.{IsDistinct}
use task_a.Graph.Validate.Registry.{node_id}
use task_a.Graph.Engine.Defs.{Fault, Backend, Digests}
use task_a.Graph.Engine.Step.{visit, visit_all, pause, tick}
use task_a.Graph.Engine.Keep.{unique_id}
use task_a.Graph.Engine.Adopted.{is_succeeded-eq}
use task_a.Graph.Live.Track.{IsPrompt, Delivers, rank_of, OnTrack}
use task_a.Graph.Live.Visit.{Moved, IsLive, visit-Visited}

-- No attempt loses ground, and a success stays as it is.
pub record Grows (s s' : State) : Type 0 where
  pub plan : s'.plan ≡ s.plan
  pub lower : (id : String) → rank_of (lookup id s'.attempts) ≤ rank_of (lookup id s.attempts)
  pub final :
      (id : String) (a : Attempt)
      → lookup id s.attempts ≡ some a
      → a.phase ≡ succeeded
      → lookup id s'.attempts ≡ some a

Grows-refl : (s : State) → Grows s s
Grows-refl s = record { plan = refl; lower = λ id. omega arith; final = λ id a e _. e }

Grows-trans : {s t u : State} → Grows s t → Grows t u → Grows s u
Grows-trans {s} {t} {u} f g = record {
  plan = g.plan ∙ f.plan;
  lower = λ id. omega (arith, f.lower id, g.lower id);
  final = λ id a e q. g.final id a (f.final id a e q) q;
}

Moved-Grows :
    {answer : String → RunResult} (n : Node) (s s' : State) → Moved answer n s s' → Grows s s'
Moved-Grows n s s' m = record {
  plan = m.plan;
  lower = λ id. elim (String-cases n.id id) [
    | inl p ↦
        subst (λ j. rank_of (lookup j s'.attempts) ≤ rank_of (lookup j s.attempts)) p.0
          (subst (λ o. rank_of o ≤ rank_of (lookup n.id s.attempts)) (sym m.stored)
            (omega (arith, m.lower)))
    | inr p ↦
        subst (λ o. rank_of o ≤ rank_of (lookup id s.attempts)) (sym (m.others id p.0))
          (omega arith)
  ];
  final = λ id a e q. elim (String-cases n.id id) [
    | inl p ↦
        let here : lookup n.id s.attempts ≡ some a =
          subst (λ j. lookup j s.attempts ≡ some a) (sym p.0) e in
        subst (λ j. lookup j s'.attempts ≡ some a) p.0 (m.stored ∙ ap some (m.final a here q))
    | inr p ↦ m.others id p.0 ∙ e
  ];
}

output_of-Grows :
    (s s' : State) (i : Input) (v : String)
    → Grows s s'
    → output_of s.attempts i ≡ some v
    → output_of s'.attempts i ≡ some v
unfolding output_of
output_of-Grows s s' i v g h = elim (Option-cases (lookup i.task s.attempts)) [
  | inl e ↦ cc (rw (e, output_of) at h)
  | inr (a, e) ↦ elim (Bool-cases (is_succeeded a.phase)) [
    | inr q ↦ cc (rw (e, q, output_of) at h)
    | inl q ↦
        let e' = g.final i.task a e (is_succeeded-eq a.phase q) in
        rw (e', q, output_of) (rw (e, q, output_of) at h)
  ]
]

add_inputs-Grows :
    (s s' : State) (is : Map Input) (f files : Map String)
    → Grows s s'
    → add_inputs s.attempts is f ≡ some files
    → add_inputs s'.attempts is f ≡ some files
unfolding add_inputs
add_inputs-Grows s s' [] f files g h = h
add_inputs-Grows s s' ((k, i) ∷ is) f files g h = elim (Option-cases (output_of s.attempts i)) [
  | inl e ↦ cc (rw (e, add_inputs) at h)
  | inr (v, e) ↦
      rw (output_of-Grows s s' i v g e, add_inputs)
        (add_inputs-Grows s s' is (insert k v f) files g (rw (e, add_inputs) at h))
]

files_of-Grows :
    (s s' : State) (n : Node) (files : Map String)
    → Grows s s'
    → files_of s n ≡ some files
    → files_of s' n ≡ some files
unfolding files_of
files_of-Grows s s' n files g h = add_inputs-Grows s s' n.inputs (insert_all n.files []) files g h

module _ {W : Type 0} (b : Backend W) (d : Digests) (scope : String) (answer : String → RunResult)
    (prompt : IsPrompt b answer) (p : Plan) (distinct : IsDistinct (map node_id p.tasks))
    (delivers : (n : Node) (files : Map String)
      → Memᴰ n p.tasks
      → Delivers n.outputs
          (answer (d.name_of scope p.id p.revision n.id (d.of_work n files)))) where
  abbrev pub Live : State → Type 0
  Live = IsLive d scope answer p

  Moved-Live : (n : Node) (s s' : State) → Memᴰ n p.tasks → Live s → Moved answer n s s' → Live s'
  Moved-Live n s s' k live m = record {
    plan = m.plan ∙ live.plan;
    running = m.paused ∙ live.running;
    attempts = λ n' a k' at. elim (String-cases n.id n'.id) [
      | inl q ↦
          let same : n ≡ n' = unique_id p.tasks n n' distinct k k' q.0 in
          let at' : some m.attempt ≡ some a =
            sym m.stored ∙ subst (λ (x : Node). lookup x.id s'.attempts ≡ some a) (sym same) at in
          let moved : m.attempt ≡ a = cc (at') in
          subst (λ (x : Node). OnTrack answer x.outputs a a.phase) same
            (subst (λ (x : Attempt). OnTrack answer n.outputs x x.phase) moved m.on_track)
      | inr q ↦ live.attempts n' a k' (sym (m.others n'.id q.0) ∙ at)
    ];
    reusable = λ n' files a k' at e.
        live.reusable n' files a k' (subst (λ x. lookup n'.id x ≡ some a) m.previous at) e;
  }

  -- The tasks of the list have been visited.
  pub record Round (ns : List Node) (s : State) (x : Result Fault (Unit {0}) × State × W)
      : Type 0 where
    pub answered : x.0 ≡ ok tt
    pub live : Live x.1
    pub grows : Grows s x.1
    pub lower :
        (n : Node) (files : Map String)
        → Memᴰ n ns
        → files_of s n ≡ some files
        → rank_of (lookup n.id x.1.attempts) ≤ rank_of (lookup n.id s.attempts) - 1

  -- A visit, as a round of one task.
  visit-Round :
      (n : Node) (s : State) (w : W)
      → Memᴰ n p.tasks
      → Live s
      → Round (n ∷ []) s (visit b d scope n s w)
  visit-Round n s w k live =
      let (answered, moved) =
        visit-Visited b d scope answer prompt p n s w live k (λ files. delivers n files k) in
      elim moved [
        | inl (same, unready) ↦ record {
          answered = answered;
          live = subst Live (sym same) live;
          grows = subst (Grows s) (sym same) (Grows-refl s);
          lower = λ n' files m e. elim m [
            | Memᴰ.head q ↦ cc (subst (λ (y : Node). files_of s y ≡ some files) q e, unready)
            | Memᴰ.tail l ↦ elim l [ ]
          ];
        }
        | inr m ↦ record {
          answered = answered;
          live = Moved-Live n s _ k live m;
          grows = Moved-Grows n s _ m;
          lower = λ n' files l e. elim l [
            | Memᴰ.head q ↦
                subst
                  (λ (y : Node).
                    rank_of (lookup y.id (visit b d scope n s w).1.attempts)
                    ≤ rank_of (lookup y.id s.attempts) - 1)
                  (sym q)
                  (subst (λ o. rank_of o ≤ rank_of (lookup n.id s.attempts) - 1) (sym m.stored)
                    m.lower)
            | Memᴰ.tail l ↦ elim l [ ]
          ];
        }
      ]

  visit_all-Round :
      (ns : List Node) (s : State) (w : W)
      → ((n : Node) → Memᴰ n ns → Memᴰ n p.tasks)
      → Live s
      → Round ns s (visit_all b d scope ns s w)
  unfolding visit_all
  visit_all-Round [] s w k live = record {
    answered = refl;
    live = live;
    grows = Grows-refl s;
    lower = λ n files m e. elim m [ ];
  }
  visit_all-Round (n ∷ ns) s w k live =
      let x = visit b d scope n s w in
      let first = visit-Round n s w (k n (Memᴰ.head refl)) live in
      let rest = visit_all-Round ns x.1 x.2 (λ m l. k m (Memᴰ.tail l)) first.live in
      subst (Round (n ∷ ns) s) (sym (ap (next x) first.answered)) (record {
        answered = rest.answered;
        live = rest.live;
        grows = Grows-trans first.grows rest.grows;
        lower = λ n' files m e. elim m [
          | Memᴰ.head q ↦
              omega (arith, first.lower n' files (Memᴰ.head q) e, rest.grows.lower n'.id)
          | Memᴰ.tail l ↦ omega (
            arith,
            rest.lower n' files l (files_of-Grows s x.1 n' files first.grows e),
            first.grows.lower n'.id,
          )
        ];
      })
    where
      next :
          Result Fault (Unit {0}) × State × W
          → Result Fault (Unit {0})
          → Result Fault (Unit {0}) × State × W
      next x r = elim r [ err e ↦ (err e, x.1, x.2) | ok _ ↦ visit_all b d scope ns x.1 x.2 ]

  pub tick-Round : (s : State) (w : W) → Live s → Round p.tasks s (tick b d scope s w)
  unfolding tick
  tick-Round s w live =
      let all = visit_all-Round p.tasks s w (λ n m. m) live in
      choose s.paused live.running (
        subst (λ (q : Plan). Round p.tasks s (visit_all b d scope q.tasks s w)) (sym live.plan) all)
    where
      choose :
          (q : Bool)
          → q ≡ false
          → Round p.tasks s (visit_all b d scope s.plan.tasks s w)
          → Round p.tasks s
              (if q then pause b d scope s w else visit_all b d scope s.plan.tasks s w)
      choose true e r = cc
      choose false e r = r
