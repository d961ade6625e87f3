-- ===== src/Graph/Live/Complete.antt =====
-- A plan in a world that answers: repeated calls of `Tick` (engine/ax/internal/taskgraph/engine.go)
-- complete it.
use task_a.Prelude.{
  String, ℕ, zero, suc, ◌+◌, ◌*◌, ◌≤◌, ◌<◌, true, List, [], ◌∷◌, Map, map, lookup, lookup-nil, none,
  Result, ok, err, length, ◌≡◌, refl, sym, ap, ◌∙◌, arith, subst, Memᴰ, inl, inr, Bool-cases,
}
use task_a.Graph.Model.{Plan, Node, RunResult, Attempt, State}
use task_a.Graph.Progress.{has_succeeded, all_succeeded, complete}
use task_a.Graph.Validate.{validate}
use task_a.Graph.Validate.Nodes.{IsDistinct}
use task_a.Graph.Validate.Registry.{node_id}
use task_a.Graph.Validate.Sound.{validate-nodes}
use task_a.Graph.Engine.Defs.{Fault, Backend, Digests, apply, fresh}
use task_a.Graph.Engine.Step.{tick}
use task_a.Graph.Engine.Adopted.{has_succeeded-eq}
use task_a.Graph.Engine.Life.{apply-valid}
use task_a.Graph.Live.Track.{IsPrompt, Delivers, rank, rank_of}
use task_a.Graph.Live.Visit.{IsLive}
use task_a.Graph.Live.Round.{tick-Round}
use task_a.Graph.Live.Ready.{succeeded_or_next, has_succeeded-of_rank}

-- The steps that are left of these tasks.
abbrev pub left : List Node → Map Attempt → ℕ
left [] m = 0
left (n ∷ ns) m = rank_of (lookup n.id m) + left ns m

left-le :
    (ns : List Node) (m m' : Map Attempt)
    → ((id : String) → rank_of (lookup id m') ≤ rank_of (lookup id m))
    → left ns m' ≤ left ns m
left-le [] m m' h = omega arith
left-le (n ∷ ns) m m' h = omega (arith, h n.id, left-le ns m m' h)

left-lt :
    (ns : List Node) (m m' : Map Attempt) (k : Node)
    → ((id : String) → rank_of (lookup id m') ≤ rank_of (lookup id m))
    → Memᴰ k ns
    → rank_of (lookup k.id m') < rank_of (lookup k.id m)
    → left ns m' < left ns m
left-lt [] m m' k h l lt = elim l [ ]
left-lt (n ∷ ns) m m' k h (Memᴰ.head e) lt =
    let here = subst (λ (x : Node). rank_of (lookup x.id m') < rank_of (lookup x.id m)) e lt in
    omega (arith, here, left-le ns m m' h)
left-lt (n ∷ ns) m m' k h (Memᴰ.tail l) lt = omega (arith, h n.id, left-lt ns m m' k h l lt)

left-of_succeeded : (ns : List Node) (m : Map Attempt) → all_succeeded ns m ≡ true → left ns m ≡ 0
unfolding all_succeeded
left-of_succeeded [] m h = refl
left-of_succeeded (n ∷ ns) m h = elim (Bool-cases (has_succeeded n.id m)) [
  | inr e ↦ cc (rw (e, all_succeeded) at h)
  | inl e ↦
      let (a, at, q) = has_succeeded-eq n.id m e in
      let here : rank_of (lookup n.id m) ≡ 0 = ap rank_of at ∙ ap rank q in
      omega (arith, here, left-of_succeeded ns m (rw (e, all_succeeded) at h))
]

left-nil : (ns : List Node) → left ns [] ≡ 6 * length ns
left-nil [] = omega arith
left-nil (n ∷ ns) =
    let unmet = ap rank_of (lookup-nil {V = Attempt} n.id) in omega (arith, unmet, left-nil ns)

-- Repeated calls, up to the first error.
module _ {W : Type 0} (b : Backend W) (d : Digests) (scope : String) where
  unfoldable pub ticks : ℕ → State → W → Result Fault (Unit {0}) × State × W
  ticks zero s w = (ok tt, s, w)
  ticks (suc k) s w =
      let (r, s', w') = tick b d scope s w in
      let rest = ticks k s' w' in elim r [ err e ↦ (err e, s', w') | ok _ ↦ rest ]

module _ {W : Type 0} (b : Backend W) (d : Digests) (scope : String) (answer : String → RunResult)
    (prompt : IsPrompt b answer) (p : Plan) (valid : validate p ≡ ok tt)
    (delivers : (n : Node) (files : Map String)
      → Memᴰ n p.tasks
      → Delivers n.outputs
          (answer (d.name_of scope p.id p.revision n.id (d.of_work n files)))) where
  abbrev distinct : IsDistinct (map node_id p.tasks)
  distinct = (validate-nodes p valid).1

  abbrev Live : State → Type 0
  Live = IsLive d scope answer p

  -- With no steps left all has succeeded.
  left-zero :
      (s : State) (ns : List Node)
      → Live s
      → ((n : Node) → Memᴰ n ns → Memᴰ n p.tasks)
      → left ns s.attempts ≡ 0
      → all_succeeded ns s.attempts ≡ true
  unfolding all_succeeded
  left-zero s [] live k h = refl
  left-zero s (n ∷ ns) live k h =
      let m = k n (Memᴰ.head refl) in
      let e = has_succeeded-of_rank d scope answer p valid s live n m (omega (arith, h)) in
      rw (e, all_succeeded) (left-zero s ns live (λ x l. k x (Memᴰ.tail l)) (omega (arith, h)))

  complete-of_left : (s : State) → Live s → left p.tasks s.attempts ≡ 0 → complete s ≡ true
  unfolding complete
  complete-of_left s live h =
      rw (live.running, complete)
        (subst (λ (q : Plan). all_succeeded q.tasks s.attempts ≡ true) (sym live.plan)
          (left-zero s p.tasks live (λ n m. m) h))

  -- A call leaves fewer steps, if any were left.
  tick-left :
      (k : ℕ) (s : State) (w : W)
      → Live s
      → left p.tasks s.attempts ≤ suc k
      → left p.tasks (tick b d scope s w).1.attempts ≤ k
  tick-left k s w live h =
      let round = tick-Round b d scope answer prompt p distinct delivers s w live in
      elim (succeeded_or_next d scope answer p valid s live) [
        | inl all ↦ omega (
          arith,
          left-of_succeeded p.tasks s.attempts all,
          left-le p.tasks s.attempts (tick b d scope s w).1.attempts round.grows.lower,
        )
        | inr next ↦ omega (
          arith,
          h,
          left-lt p.tasks s.attempts (tick b d scope s w).1.attempts next.node round.grows.lower
              next.listed
              (omega (arith, next.left, round.lower next.node next.files next.listed next.ready)),
        )
      ]

  ticks-complete :
      (k : ℕ) (s : State) (w : W)
      → Live s
      → left p.tasks s.attempts ≤ k
      → ((ticks b d scope k s w).0 ≡ ok tt) × (complete (ticks b d scope k s w).1 ≡ true)
  unfolding ticks
  ticks-complete zero s w live h = (refl, complete-of_left s live (omega (arith, h)))
  ticks-complete (suc k) s w live h =
      let x = tick b d scope s w in
      let round = tick-Round b d scope answer prompt p distinct delivers s w live in
      subst (λ (o : Result Fault (Unit {0}) × State × W). (o.0 ≡ ok tt) × (complete o.1 ≡ true))
        (sym (ap (next x) round.answered))
        (ticks-complete k x.1 x.2 round.live (tick-left k s w live h))
    where
      next :
          Result Fault (Unit {0}) × State × W
          → Result Fault (Unit {0})
          → Result Fault (Unit {0}) × State × W
      next x r = elim r [ err e ↦ (err e, x.1, x.2) | ok _ ↦ ticks b d scope k x.1 x.2 ]

  fresh-Live : Live (fresh p)
  fresh-Live = record {
    plan = refl;
    running = refl;
    attempts = λ n a m at. cc (lookup-nil {V = Attempt} n.id, at);
    reusable = λ n files a m at e. cc (lookup-nil {V = Attempt} n.id, at);
  }

-- A plan that `Apply` accepts for the first time is complete after at most six calls of `Tick` for each
-- of its tasks, and none of the calls fails, in a world where every call succeeds, every actor stops
-- when it is asked to and has left a clean result of its own, and the actor of a task has left the
-- task's declared outputs.
pub apply-complete :
    {W : Type 0} (b : Backend W) (d : Digests) (scope : String) (answer : String → RunResult)
    → IsPrompt b answer
    → (p : Plan) (s : State) (w : W) → apply d none p ≡ ok s
    → ((n : Node) (files : Map String)
        → Memᴰ n p.tasks
        → Delivers n.outputs (answer (d.name_of scope p.id p.revision n.id (d.of_work n files))))
    → ((ticks b d scope (6 * length p.tasks) s w).0 ≡ ok tt)
      × (complete (ticks b d scope (6 * length p.tasks) s w).1 ≡ true)
unfolding apply
apply-complete b d scope answer prompt p s w h delivers =
    let v = apply-valid d none p s h in
    let same : fresh p ≡ s = cc (rw (v, apply) at h) in
    subst
      (λ (x : State).
        ((ticks b d scope (6 * length p.tasks) x w).0 ≡ ok tt)
        × (complete (ticks b d scope (6 * length p.tasks) x w).1 ≡ true))
      same
      (ticks-complete b d scope answer prompt p v delivers (6 * length p.tasks) (fresh p) w
        (fresh-Live b d scope answer prompt p v delivers) (omega (arith, left-nil p.tasks)))
