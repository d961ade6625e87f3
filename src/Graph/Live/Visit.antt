-- ===== src/Graph/Live/Visit.antt =====
-- One visit of a task by `Tick` (engine/ax/internal/taskgraph/engine.go) in a world that answers.
use task_a.Prelude.{
  String, ◌≤◌, ◌-◌, true, false, Map, lookup, insert, lookup-insert_self, lookup-insert_ne, Option,
  none, some, Result, ok, err, ◌≡◌, ◌≢◌, refl, sym, ap, ◌∙◌, arith, subst, Memᴰ, Option-cases,
  String-cases, inl, inr, ◌⊎◌,
}
use task_a.Graph.Model.{Node, RunResult, Attempt, State, Plan, succeeded}
use task_a.Graph.Progress.{files_of}
use task_a.Graph.Engine.Defs.{Fault, outside, Backend, Digests}
use task_a.Graph.Engine.Step.{
  advance, with_attempt, save_state, drive, new_attempt, begin, reuse_or_begin, visit,
}
use task_a.Graph.Live.Track.{IsPrompt, Delivers, rank, rank_of, OnTrack, advance-Moves}

-- The task's attempt has moved on, and the rest of the state is as it was.
pub record Moved (answer : String → RunResult) (n : Node) (s s' : State) : Type 0 where
  pub plan : s'.plan ≡ s.plan
  pub paused : s'.paused ≡ s.paused
  pub previous : s'.previous ≡ s.previous
  pub attempt : Attempt
  pub stored : lookup n.id s'.attempts ≡ some attempt
  pub others : (j : String) → n.id ≢ j → lookup j s'.attempts ≡ lookup j s.attempts
  pub on_track : OnTrack answer n.outputs attempt attempt.phase
  pub lower : rank attempt.phase ≤ rank_of (lookup n.id s.attempts) - 1
  pub final : (a : Attempt) → lookup n.id s.attempts ≡ some a → a.phase ≡ succeeded → attempt ≡ a

-- A task that is not ready is passed by.
abbrev pub Visited : (String → RunResult) → Node → State → State → Type 0
Visited answer n s s' = ((s' ≡ s) × (files_of s n ≡ none)) ⊎ Moved answer n s s'

-- What is known of the tasks of a plan, of their attempts and of the earlier successes.
pub record IsLive (d : Digests) (scope : String) (answer : String → RunResult) (p : Plan)
    (s : State) : Type 0 where
  pub plan : s.plan ≡ p
  pub running : s.paused ≡ false
  pub attempts :
      (n : Node) (a : Attempt)
      → Memᴰ n p.tasks
      → lookup n.id s.attempts ≡ some a
      → OnTrack answer n.outputs a a.phase
  pub reusable :
      (n : Node) (files : Map String) (a : Attempt)
      → Memᴰ n p.tasks
      → lookup n.id s.previous ≡ some a
      → a.fingerprint ≡ d.of_work n files
      → OnTrack answer n.outputs a a.phase × (a.phase ≡ succeeded)

module _ {W : Type 0} (b : Backend W) (d : Digests) (scope : String) (answer : String → RunResult)
    (prompt : IsPrompt b answer) where
  abbrev Out : Type 0
  Out = Result Fault (Unit {0}) × State × W

  save_state-ok : (s : State) (w : W) → save_state b d scope s w ≡ (ok tt, s, (b.save s w).1)
  unfolding save_state
  save_state-ok s w = ap outcome (prompt.saves s w)
    where
      outcome : Result String (Unit {0}) → Out
      outcome r = elim r [
        | ok _ ↦ (ok tt, s, (b.save s w).1)
        | err e ↦ (err (outside e), s, (b.save s w).1)
      ]

  -- A driven attempt is saved in its next form.
  record Driven (n : Node) (a : Attempt) (s : State) (x : Out) : Type 0 where
    next : Attempt
    answered : x.0 ≡ ok tt
    written : x.1 ≡ with_attempt n.id next s
    on_track : OnTrack answer n.outputs next next.phase
    lower : rank next.phase ≤ rank a.phase - 1
    final : a.phase ≡ succeeded → next ≡ a

  drive-Driven :
      (n : Node) (files : Map String) (a : Attempt) (s : State) (w : W)
      → OnTrack answer n.outputs a a.phase
      → Driven n a s (drive b d scope n files a s w)
  unfolding drive
  drive-Driven n files a s w h =
      let m = advance-Moves b answer prompt n files a a.phase refl h w in
      let saved = ap outcome m.answered ∙ save_state-ok (with_attempt n.id m.next s) w' in
      record {
        next = m.next;
        answered = ap (λ (x : Out). x.0) saved;
        written = ap (λ (x : Out). x.1) saved;
        on_track = m.on_track;
        lower = m.lower;
        final = m.final;
      }
    where
      w' : W
      w' = (advance b n files a.phase a w).1

      outcome : Result Fault (Option Attempt) → Out
      outcome r = elim r [
        | err e ↦ (err e, s, w')
        | ok none ↦ (ok tt, s, w')
        | ok (some a') ↦ save_state b d scope (with_attempt n.id a' s) w'
      ]

  Moved-of_written :
      (n : Node) (a' : Attempt) (s s' : State)
      → s' ≡ with_attempt n.id a' s
      → OnTrack answer n.outputs a' a'.phase
      → rank a'.phase ≤ rank_of (lookup n.id s.attempts) - 1
      → ((a : Attempt) → lookup n.id s.attempts ≡ some a → a.phase ≡ succeeded → a' ≡ a)
      → Moved answer n s s'
  Moved-of_written n a' s s' e t l f = subst (Moved answer n s) (sym e) (record {
    plan = refl;
    paused = refl;
    previous = refl;
    attempt = a';
    stored = lookup-insert_self n.id a' s.attempts;
    others = λ j ne. lookup-insert_ne n.id j a' s.attempts ne;
    on_track = t;
    lower = l;
    final = f;
  })

  -- A new attempt is saved, and driven in the same visit.
  begin-Moved :
      (n : Node) (files : Map String) (s : State) (w : W)
      → Delivers n.outputs
          (answer (d.name_of scope s.plan.id s.plan.revision n.id (d.of_work n files)))
      → lookup n.id s.attempts ≡ none
      → ((begin b d scope n files s w).0 ≡ ok tt) × Moved answer n s (begin b d scope n files s w).1
  unfolding begin
  begin-Moved n files s w h absent =
      let dr = drive-Driven n files a (with_attempt n.id a s) w' h in
      subst (λ (x : Out). (x.0 ≡ ok tt) × Moved answer n s x.1)
        (sym (ap next (save_state-ok (with_attempt n.id a s) w)))
        (
          dr.answered,
          subst (Moved answer n s) (sym dr.written) (record {
            plan = refl;
            paused = refl;
            previous = refl;
            attempt = dr.next;
            stored = lookup-insert_self n.id dr.next (insert n.id a s.attempts);
            others = λ j ne.
                lookup-insert_ne n.id j dr.next (insert n.id a s.attempts) ne
                ∙ lookup-insert_ne n.id j a s.attempts ne;
            on_track = dr.on_track;
            lower =
                subst (λ o. rank dr.next.phase ≤ rank_of o - 1) (sym absent)
                  (omega (arith, dr.lower));
            final = λ c at e. cc (at, absent);
          }),
        )
    where
      a : Attempt
      a = new_attempt b d scope s n (d.of_work n files)

      w' : W
      w' = (b.save (with_attempt n.id a s) w).1

      next : Out → Out
      next x = elim x.0 [ err e ↦ (err e, x.1, x.2) | ok _ ↦ drive b d scope n files a x.1 x.2 ]

  reuse-Moved :
      (o : Option Attempt) (n : Node) (files : Map String) (s : State) (w : W)
      → ((a : Attempt)
          → o ≡ some a
          → a.fingerprint ≡ d.of_work n files
          → OnTrack answer n.outputs a a.phase × (a.phase ≡ succeeded))
      → Delivers n.outputs
          (answer (d.name_of scope s.plan.id s.plan.revision n.id (d.of_work n files)))
      → lookup n.id s.attempts ≡ none
      → ((reuse_or_begin b d scope o n files s w).0 ≡ ok tt)
        × Moved answer n s (reuse_or_begin b d scope o n files s w).1
  unfolding reuse_or_begin
  reuse-Moved none n files s w r h absent = begin-Moved n files s w h absent
  reuse-Moved (some old) n files s w r h absent =
      elim (String-cases old.fingerprint (d.of_work n files)) [
        | inr p ↦ rw p.1 (begin-Moved n files s w h absent)
        | inl p ↦ rw p.1 (taken p.0)
      ]
    where
      taken :
          old.fingerprint ≡ d.of_work n files
          → ((save_state b d scope (with_attempt n.id (record old { reused = true }) s) w).0
              ≡ ok tt)
            × Moved answer n s
                (save_state b d scope (with_attempt n.id (record old { reused = true }) s) w).1
      taken same =
          let (track, e) = r old refl same in
          subst (λ (x : Out). (x.0 ≡ ok tt) × Moved answer n s x.1)
            (sym (save_state-ok (with_attempt n.id (record old { reused = true }) s) w))
            (
              refl,
              Moved-of_written n (record old { reused = true }) s _ refl
                  (subst (OnTrack answer n.outputs (record old { reused = true })) (sym e)
                    (subst (OnTrack answer n.outputs old) e track))
                  (subst (λ p. rank p ≤ rank_of (lookup n.id s.attempts) - 1) (sym e) (omega arith))
                  (λ c at _. cc (at, absent)),
            )

  -- One visit of a task of the plan succeeds, and the task moves on unless it is not ready.
  pub visit-Visited :
      (p : Plan) (n : Node) (s : State) (w : W)
      → IsLive d scope answer p s
      → Memᴰ n p.tasks
      → ((files : Map String)
          → Delivers n.outputs (answer (d.name_of scope p.id p.revision n.id (d.of_work n files))))
      → ((visit b d scope n s w).0 ≡ ok tt) × Visited answer n s (visit b d scope n s w).1
  unfolding visit
  visit-Visited p n s w live m h = elim (Option-cases (files_of s n)) [
    | inl e ↦ rw (e, visit) (refl, inl (refl, refl))
    | inr (files, e) ↦ elim (Option-cases (lookup n.id s.attempts)) [
      | inl absent ↦
          let delivers =
            subst
              (λ (x : Plan).
                Delivers n.outputs
                  (answer (d.name_of scope x.id x.revision n.id (d.of_work n files))))
              (sym live.plan) (h files) in
          let moved =
            reuse-Moved (lookup n.id s.previous) n files s w
              (λ a q f. live.reusable n files a m q f) delivers absent in
          rw (e, absent, visit) (moved.0, inr moved.1)
      | inr (a, at) ↦
          let dr = drive-Driven n files a s w (live.attempts n a m at) in
          let lower = subst (λ o. rank dr.next.phase ≤ rank_of o - 1) (sym at) dr.lower in
          let final : (c : Attempt)
              → lookup n.id s.attempts ≡ some c
              → c.phase ≡ succeeded
              → dr.next ≡ c =
            λ c q z.
              let same : c ≡ a = cc (q, at) in
              dr.final (ap (λ (x : Attempt). x.phase) (sym same) ∙ z) ∙ sym same in
          rw (e, at, visit)
            (dr.answered, inr (Moved-of_written n dr.next s _ dr.written dr.on_track lower final))
    ]
  ]
