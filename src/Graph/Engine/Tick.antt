-- ===== src/Graph/Engine/Tick.antt =====
-- Lemmas on the loop of `Tick` (engine/ax/internal/taskgraph/engine.go) and the invariant of the state.
use task_a.Prelude.{
  String, true, List, [], ◌∷◌, Map, lookup, lookup-insert_self, Option, none, some, Result, ok, err,
  ◌≡◌, ◌≢◌, refl, sym, ◌∙◌, Memᴰ, String-cases, Option-cases, inl, inr, subst,
}
use task_a.Graph.Model.{Node, Attempt, State, succeeded}
use task_a.Graph.Progress.{files_of}
use task_a.Graph.Engine.Defs.{Fault, nil_pointer, Backend, Digests}
use task_a.Graph.Engine.Step.{
  advance, with_attempt, save_state, drive, new_attempt, begin, reuse_or_begin, visit, visit_all,
}
use task_a.Graph.Engine.Honest.{Fine, advance-Fine, Backing, Backing-reused}
use task_a.Graph.Engine.Calls.{advance_keeps, advance-succeeded}
use task_a.Graph.Engine.Keep.{
  Entry, IsSound, NoCollision, Follows, Continues, Continues-refl, Continues-with_attempt,
  Entry-of_lookup, with_attempt-IsSound, Respects, Outcome, Kept, Kept-ok, Kept-from, Kept-seq,
  save_state_ind, save_state-Kept,
}

module _ {W : Type 0} (b : Backend W) (d : Digests) (scope : String) (Q : W → Type 0)
    (v : Respects b d Q) (collisions : NoCollision d) where
  abbrev KeptFrom : State → Outcome W → Type 0
  KeptFrom = Kept d Q

  -- What `drive` does with the answer of `advance`.
  drive_answer :
      (n : Node) (a : Attempt) (s : State) (x : Result Fault (Option Attempt) × W)
      → Memᴰ n s.plan.tasks
      → IsSound d s
      → Q x.1
      → Entry d n a
      → Fine n.outputs a x.0
      → ((a' : Attempt) → x.0 ≡ ok (some a') → a.phase ≡ succeeded → a' ≡ a)
      → ((c : Attempt) → lookup n.id s.attempts ≡ some c → c ≡ a)
      → KeptFrom s (elim x.0 [
        | err e ↦ (err e, s, x.1)
        | ok none ↦ (ok tt, s, x.1)
        | ok (some a') ↦ save_state b d scope (with_attempt n.id a' s) x.1
      ])
  drive_answer n a s (err e, w) m h q t f final at = record {
    sound = h;
    continues = Continues-refl s;
    world = q;
    no_panic = λ p. f (cc);
  }
  drive_answer n a s (ok none, w) m h q t f final at = Kept-ok d Q s w h q
  drive_answer n a s (ok (some a'), w) m h q t (honest, name, print) final at =
      save_state-Kept b d scope Q s (with_attempt n.id a' s) w v
        (Continues-with_attempt n.id a' s (λ c e.
          subst (λ (x : Attempt). Follows x a') (sym (at c e))
            (record { name = name; fingerprint = print; final = final a' refl })))
        (with_attempt-IsSound d n.id n a' s m refl
          (record { files = t.files; made_for = print ∙ t.made_for; honest = honest }) h)
        q

  drive-Kept :
      (n : Node) (files : Map String) (a : Attempt) (s : State) (w : W)
      → Memᴰ n s.plan.tasks
      → lookup n.id s.attempts ≡ some a
      → IsSound d s
      → Q w
      → KeptFrom s (drive b d scope n files a s w)
  unfolding drive
  drive-Kept n files a s w m at h q =
      let entry = Entry-of_lookup d s n a h m at in
      drive_answer n a s (advance b n files a.phase a w) m h
        (advance_keeps b d Q v n files a a.phase w q) entry
        (advance-Fine b n files a a.phase refl entry.honest w)
        (λ a' e p. cc (e, advance-succeeded b n files a w a.phase p)) (λ c e. cc (e, at))

  new-Entry :
      (n : Node) (files : Map String) (s : State)
      → Entry d n (new_attempt b d scope s n (d.of_work n files))
  new-Entry n files s = record { files = files; made_for = refl; honest = refl }

  begin-Kept :
      (n : Node) (files : Map String) (s : State) (w : W)
      → Memᴰ n s.plan.tasks
      → lookup n.id s.attempts ≡ none
      → IsSound d s
      → Q w
      → KeptFrom s (begin b d scope n files s w)
  unfolding begin
  begin-Kept n files s w m absent h q =
      save_state_ind b d scope (λ x. KeptFrom s (next x)) (with_attempt n.id a s) w saved
    where
      a : Attempt
      a = new_attempt b d scope s n (d.of_work n files)

      next : Outcome W → Outcome W
      next x = elim x.0 [ err e ↦ (err e, x.1, x.2) | ok _ ↦ drive b d scope n files a x.1 x.2 ]

      sound : IsSound d (with_attempt n.id a s)
      sound = with_attempt-IsSound d n.id n a s m refl (new-Entry n files s) h

      continues : Continues s (with_attempt n.id a s)
      continues = Continues-with_attempt n.id a s (λ c e. cc (e, absent))

      kept : Q (b.save (with_attempt n.id a s) w).1
      kept = v.save_keeps (with_attempt n.id a s) w sound q

      saved :
          (r : Result Fault (Unit {0}))
          → r ≢ err nil_pointer
          → KeptFrom s (next (r, with_attempt n.id a s, (b.save (with_attempt n.id a s) w).1))
      saved (err e) ne = record {
        sound = sound;
        continues = continues;
        world = kept;
        no_panic = ne;
      }
      saved (ok u) ne = Kept-from d Q continues (
          drive-Kept n files a (with_attempt n.id a s) (b.save (with_attempt n.id a s) w).1 m
            (lookup-insert_self n.id a s.attempts) sound kept)

  reuse-Entry :
      (n : Node) (files : Map String) (s : State) (old : Attempt)
      → IsSound d s
      → lookup n.id s.previous ≡ some old
      → old.fingerprint ≡ d.of_work n files
      → Entry d n (record old { reused = true })
  reuse-Entry n files s old h at e =
      let (m, entry, _) = h.previous n.id old at in
      let same = collisions m n entry.files files (sym entry.made_for ∙ e) in
      record {
        files = files;
        made_for = e;
        honest =
            subst (λ outs. Backing outs (record old { reused = true }) old.phase) same
              (Backing-reused m.outputs old old.phase entry.honest);
      }

  reuse-Kept :
      (o : Option Attempt) (n : Node) (files : Map String) (s : State) (w : W)
      → lookup n.id s.previous ≡ o
      → Memᴰ n s.plan.tasks
      → lookup n.id s.attempts ≡ none
      → IsSound d s
      → Q w
      → KeptFrom s (reuse_or_begin b d scope o n files s w)
  unfolding reuse_or_begin
  reuse-Kept none n files s w e m absent h q = begin-Kept n files s w m absent h q
  reuse-Kept (some old) n files s w e m absent h q =
      elim (String-cases old.fingerprint (d.of_work n files)) [
        | inr p ↦ rw p.1 (begin-Kept n files s w m absent h q)
        | inl p ↦ rw p.1 (
            save_state-Kept b d scope Q s (with_attempt n.id (record old { reused = true }) s) w v
              (Continues-with_attempt n.id (record old { reused = true }) s (λ c z. cc (z, absent)))
              (with_attempt-IsSound d n.id n (record old { reused = true }) s m refl
                (reuse-Entry n files s old h e p.0) h)
              q)
      ]

  visit-Kept :
      (n : Node) (s : State) (w : W)
      → Memᴰ n s.plan.tasks
      → IsSound d s
      → Q w
      → KeptFrom s (visit b d scope n s w)
  unfolding visit
  visit-Kept n s w m h q = elim (Option-cases (files_of s n)) [
    | inl e ↦ rw (e, visit) (Kept-ok d Q s w h q)
    | inr (files, e) ↦ elim (Option-cases (lookup n.id s.attempts)) [
      | inl absent ↦
          rw (e, absent, visit) (reuse-Kept (lookup n.id s.previous) n files s w refl m absent h q)
      | inr (a, at) ↦ rw (e, at, visit) (drive-Kept n files a s w m at h q)
    ]
  ]

  pub visit_all-Kept :
      (ns : List Node) (s : State) (w : W)
      → ((n : Node) → Memᴰ n ns → Memᴰ n s.plan.tasks)
      → IsSound d s
      → Q w
      → KeptFrom s (visit_all b d scope ns s w)
  unfolding visit_all
  visit_all-Kept [] s w m h q = Kept-ok d Q s w h q
  visit_all-Kept (n ∷ ns) s w m h q =
      let x = visit b d scope n s w in
      let first = visit-Kept n s w (m n (Memᴰ.head refl)) h q in
      Kept-seq d Q s x (visit_all b d scope ns x.1 x.2) first (λ h' q'.
        visit_all-Kept ns x.1 x.2
          (λ k l. subst (λ p. Memᴰ k p.tasks) (sym first.continues.plan) (m k (Memᴰ.tail l))) h' q')
