-- ===== src/Graph/Engine/Pause.antt =====
-- `Pause` and `Tick` (engine/ax/internal/taskgraph/engine.go) and the invariant of the state.
use task_a.Prelude.{
  String, Bool, true, false, List, [], ◌∷◌, lookup, lookup-mem, keys, some, Result, ok, err,
  if◌then◌else◌, ◌≡◌, ◌≢◌, refl, sym, ◌∙◌, String-cases, Option-cases, inl, inr, subst,
}
use task_a.Graph.Model.{
  Node, Attempt, Phase, State, starting, running, stopping, validating, validation_stopping,
  succeeded, failed, suspended,
}
use task_a.Graph.Progress.{files_of}
use task_a.Graph.Engine.Defs.{Launch, Fault, outside, nil_pointer, Backend, Digests, is_settled}
use task_a.Graph.Engine.Step.{
  call, with_attempt, save_state, ensure_starting, actor_of, suspend_attempt, is_starting,
  pause_one, pause_all, visit_all, pause, tick,
}
use task_a.Graph.Engine.Honest.{Backing, IsValidating-update}
use task_a.Graph.Engine.Keep.{
  IsSound, NoCollision, Follows, Follows-refl, Continues, Continues-refl, Continues-with_attempt,
  with_attempt-IsSound, Respects, Outcome, Kept, Kept-ok, Kept-seq, save_state-Kept,
}
use task_a.Graph.Engine.Tick.{visit_all-Kept}

-- An attempt that is suspended has what lets it start again, or validate again.
Backing-suspended :
    (outs : List String) (a : Attempt) (p : Phase)
    → is_settled p ≡ false
    → Backing outs a p
    → Backing outs (record a { phase = suspended }) suspended
unfolding is_settled
Backing-suspended outs a starting u h = inl h
Backing-suspended outs a running u h = inl h
Backing-suspended outs a stopping u h = inl h.0
Backing-suspended outs a validating u h = inr (IsValidating-update a _ refl refl refl h)
Backing-suspended outs a validation_stopping u h = inr (IsValidating-update a _ refl refl refl h.0)
Backing-suspended outs a succeeded u h = cc
Backing-suspended outs a failed u h = cc
Backing-suspended outs a suspended u h = cc

unsettled-ne-succeeded : (p : Phase) → is_settled p ≡ false → p ≢ succeeded
unfolding is_settled
unsettled-ne-succeeded p u e = cc (subst (λ q. is_settled q ≡ false) e u)

module _ {W : Type 0} (b : Backend W) (d : Digests) (scope : String) (Q : W → Type 0)
    (v : Respects b d Q) (collisions : NoCollision d) where
  -- The call of `Ensure` for one task, and the rest of the loop.
  ensure_one :
      (l : Launch) (rest : W → Result Fault (Unit {0}) × W) (w : W)
      → Q w
      → ((w' : W) → Q w' → Q (rest w').1 × ((rest w').0 ≢ err nil_pointer))
      → Q (call (b.ensure l) (λ _. rest) w).1
        × ((call (b.ensure l) (λ _. rest) w).0 ≢ err nil_pointer)
  ensure_one l rest w q h =
      elim (b.ensure l w).0 as (λ r. Q (answer r).1 × ((answer r).0 ≢ err nil_pointer)) [
        | ok u ↦ h (b.ensure l w).1 (v.ensure_keeps l w q)
        | err e ↦ (v.ensure_keeps l w q, λ x. cc)
      ]
    where
      answer : Result String (Unit {0}) → Result Fault (Unit {0}) × W
      answer r = elim r [
        | ok a ↦ rest (b.ensure l w).1
        | err e ↦ (err (outside e), (b.ensure l w).1)
      ]

  ensure_starting_keeps :
      (ns : List Node) (id : String) (a : Attempt) (s : State) (w : W)
      → Q w
      → Q (ensure_starting b d scope ns id a s w).1
        × ((ensure_starting b d scope ns id a s w).0 ≢ err nil_pointer)
  unfolding ensure_starting
  ensure_starting_keeps [] id a s w q = (q, λ e. cc)
  ensure_starting_keeps (n ∷ ns) id a s w q = elim (String-cases n.id id) [
    | inr p ↦ rw p.1 (ensure_starting_keeps ns id a s w q)
    | inl p ↦ elim (Option-cases (files_of s n)) [
      | inl e ↦ rw (p.1, e, ensure_starting) (q, λ x. cc)
      | inr (files, e) ↦
          rw (p.1, e, ensure_starting)
            (ensure_one _ (ensure_starting b d scope ns id a s) w q
              (λ w' q'. ensure_starting_keeps ns id a s w' q'))
    ]
  ]

  suspended-Continues :
      (id : String) (a : Attempt) (s : State)
      → lookup id s.attempts ≡ some a
      → is_settled a.phase ≡ false
      → Continues s (with_attempt id (record a { phase = suspended }) s)
  suspended-Continues id a s at u =
      Continues-with_attempt id (record a { phase = suspended }) s
        λ c e.
          let same : c ≡ a = some-inj (sym e ∙ at) in
          subst (λ (x : Attempt). Follows x (record a { phase = suspended })) (sym same)
            (record {
              name = refl;
              fingerprint = refl;
              final = λ p. absurd (unsettled-ne-succeeded a.phase u p);
            })
    where
      some-inj : {x y : Attempt} → some x ≡ some y → x ≡ y
      some-inj q = cc

  suspended-IsSound :
      (id : String) (a : Attempt) (s : State)
      → lookup id s.attempts ≡ some a
      → is_settled a.phase ≡ false
      → IsSound d s
      → IsSound d (with_attempt id (record a { phase = suspended }) s)
  suspended-IsSound id a s at u h =
      let (n, m, same, entry) = h.attempts id a (lookup-mem id s.attempts at) in
      with_attempt-IsSound d id n (record a { phase = suspended }) s m same
        (record {
          files = entry.files;
          made_for = entry.made_for;
          honest = Backing-suspended n.outputs a a.phase u entry.honest;
        })
        h

  suspend_attempt-Kept :
      (id : String) (a : Attempt) (s : State) (w : W)
      → lookup id s.attempts ≡ some a
      → is_settled a.phase ≡ false
      → IsSound d s
      → Q w
      → Kept d Q s (suspend_attempt b d scope id a s w)
  unfolding suspend_attempt
  suspend_attempt-Kept id a s w at u h q =
      elim (b.suspend (actor_of b d scope a) w).0 as (λ r. Kept d Q s (answer r)) [
        | err e ↦ record {
          sound = h;
          continues = Continues-refl s;
          world = kept;
          no_panic = λ x. cc;
        }
        | ok stopped ↦ saved stopped
      ]
    where
      w' : W
      w' = (b.suspend (actor_of b d scope a) w).1

      answer : Result String Bool → Outcome W
      answer r = elim r [
        | err e ↦ (err (outside e), s, w')
        | ok stopped ↦
            save_state b d scope
              (if stopped then with_attempt id (record a { phase = suspended }) s else s) w'
      ]

      kept : Q w'
      kept = v.suspend_keeps (actor_of b d scope a) w q

      saved : (stopped : Bool) → Kept d Q s (answer (ok stopped))
      saved true =
          save_state-Kept b d scope Q s (with_attempt id (record a { phase = suspended }) s) w' v
            (suspended-Continues id a s at u) (suspended-IsSound id a s at u h) kept
      saved false = save_state-Kept b d scope Q s s w' v (Continues-refl s) h kept

  pause_one-Kept :
      (id : String) (a : Attempt) (s : State) (w : W)
      → lookup id s.attempts ≡ some a
      → IsSound d s
      → Q w
      → Kept d Q s (pause_one b d scope id a s w)
  unfolding pause_one
  pause_one-Kept id a s w at h q = settle first (created (is_starting b d scope a.phase))
    where
      first : Result Fault (Unit {0}) × W
      first =
          if is_starting b d scope a.phase
          then ensure_starting b d scope s.plan.tasks id a s w
          else (ok tt, w)

      created :
          (starts : Bool)
          → Q
              (let x : Result Fault (Unit {0}) × W =
                  if starts then ensure_starting b d scope s.plan.tasks id a s w else (ok tt, w) in
                x).1
            × ((let x : Result Fault (Unit {0}) × W =
                    if starts
                    then ensure_starting b d scope s.plan.tasks id a s w
                    else (ok tt, w) in
                  x).0
                ≢ err nil_pointer)
      created true = ensure_starting_keeps s.plan.tasks id a s w q
      created false = (q, λ e. cc)

      finish :
          (settled : Bool)
          → is_settled a.phase ≡ settled
          → (w' : W) → Q w'
          → Kept d Q s (if settled then (ok tt, s, w') else suspend_attempt b d scope id a s w')
      finish true u w' q' = Kept-ok d Q s w' h q'
      finish false u w' q' = suspend_attempt-Kept id a s w' at u h q'

      settle :
          (x : Result Fault (Unit {0}) × W)
          → Q x.1 × (x.0 ≢ err nil_pointer)
          → Kept d Q s (elim x.0 [
            | err e ↦ (err e, s, x.1)
            | ok _ ↦
                if is_settled a.phase then (ok tt, s, x.1) else suspend_attempt b d scope id a s x.1
          ])
      settle (ok u, w') k = finish (is_settled a.phase) refl w' k.0
      settle (err e, w') k = record {
        sound = h;
        continues = Continues-refl s;
        world = k.0;
        no_panic = λ z. k.1 (cc);
      }

  pause_all-Kept :
      (ids : List String) (s : State) (w : W)
      → IsSound d s
      → Q w
      → Kept d Q s (pause_all b d scope ids s w)
  unfolding pause_all
  pause_all-Kept [] s w h q = Kept-ok d Q s w h q
  pause_all-Kept (id ∷ ids) s w h q = elim (Option-cases (lookup id s.attempts)) [
    | inl e ↦ rw (e, pause_all) (pause_all-Kept ids s w h q)
    | inr (a, e) ↦
        let x = pause_one b d scope id a s w in
        rw (e, pause_all)
          (Kept-seq d Q s x (pause_all b d scope ids x.1 x.2) (pause_one-Kept id a s w e h q)
            (λ h' q'. pause_all-Kept ids x.1 x.2 h' q'))
  ]

  -- One call of `Pause`, whatever the world answers: the state stays sound, the tasks and the earlier
  -- results stay as they were, each attempt keeps its identity, a success is final, what the calls
  -- and the saves of sound states keep of the world is kept, and no nil pointer is read. The
  -- digest of a task is taken to determine its declared outputs.
  pub pause-Kept : (s : State) (w : W) → IsSound d s → Q w → Kept d Q s (pause b d scope s w)
  unfolding pause
  pause-Kept s w h q =
      let paused = record s { paused = true } in
      let x = save_state b d scope paused w in
      let sound : IsSound d paused = record {
        distinct = h.distinct;
        attempts = h.attempts;
        previous = h.previous;
      } in
      let continues : Continues s paused = record {
        plan = refl;
        previous = refl;
        follows = λ id a e. (a, e, Follows-refl a);
      } in
      Kept-seq d Q s x (pause_all b d scope (keys x.1.attempts) x.1 x.2)
        (save_state-Kept b d scope Q s paused w v continues sound q)
        (λ h' q'. pause_all-Kept (keys x.1.attempts) x.1 x.2 h' q')

  -- One call of `Tick`, whatever the world answers: the state stays sound, the tasks and the earlier
  -- results stay as they were, each attempt keeps its identity, a success is final, what the calls
  -- and the saves of sound states keep of the world is kept, and no nil pointer is read. The
  -- digest of a task is taken to determine its declared outputs.
  pub tick-Kept : (s : State) (w : W) → IsSound d s → Q w → Kept d Q s (tick b d scope s w)
  unfolding tick
  tick-Kept s w h q = choose s.paused
    where
      choose :
          (p : Bool)
          → Kept d Q s (if p then pause b d scope s w else visit_all b d scope s.plan.tasks s w)
      choose true = pause-Kept s w h q
      choose false = visit_all-Kept b d scope Q v collisions s.plan.tasks s w (λ n m. m) h q
