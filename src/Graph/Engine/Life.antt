-- ===== src/Graph/Engine/Life.antt =====
-- `Apply` and `Resume` (engine/ax/internal/taskgraph/engine.go), the invariant, and the states that the
-- engine's operations reach.
use task_a.Prelude.{
  String, true, not, ◌||◌, List, [], ◌∷◌, Map, lookup, lookup-nil, lookup-insert, insert, Option,
  none, some, ok, ◌==◌, eq_iff, ◌≡◌, ◌≢◌, refl, sym, ap, ◌∙◌, Memᴰ, String-cases, Bool-cases,
  Result-cases, inl, inr, ◌⊎◌, subst, arith,
}
use task_a.Graph.Model.{
  Plan, Node, Attempt, Phase, State, starting, running, stopping, validating, validation_stopping,
  succeeded, failed, suspended,
}
use task_a.Graph.Validate.{validate}
use task_a.Graph.Validate.Sound.{validate-nodes}
use task_a.Graph.Engine.Defs.{
  Backend, Digests, fresh, carry_over, revise, apply, is_settled, resume_from, resumed, resume_all,
  all_settled, resume, next_revision, int_eq,
}
use task_a.Graph.Engine.Step.{tick, pause}
use task_a.Graph.Engine.Honest.{IsHonest, Backing, IsValidating, IsValidating-update}
use task_a.Graph.Engine.Keep.{Entry, IsSound, NoCollision, Respects}
use task_a.Graph.Engine.Pause.{pause-Kept, tick-Kept}

-- Where `Apply` succeeds, what it carries over are successes of the earlier attempts.
pub carry_over-origin :
    (attempts previous result : Map Attempt) (id : String) (a : Attempt)
    → carry_over attempts previous ≡ ok result
    → lookup id result ≡ some a
    → (lookup id previous ≡ some a) ⊎ (Memᴰ (id, a) attempts × (a.phase ≡ succeeded))
unfolding carry_over
carry_over-origin [] previous result id a h e = inl (cc)
carry_over-origin ((j, b) ∷ attempts) previous result id a h e =
    elim (Bool-cases (is_settled b.phase)) [
      | inr u ↦ cc (rw (u, carry_over) at h)
      | inl u ↦
          step (λ prev k. carry_over-origin attempts prev result id a k e) b.phase refl
            (rw (u, carry_over) at h)
    ]
  where
    later :
        (lookup id previous ≡ some a) ⊎ (Memᴰ (id, a) attempts × (a.phase ≡ succeeded))
        → (lookup id previous ≡ some a) ⊎ (Memᴰ (id, a) ((j, b) ∷ attempts) × (a.phase ≡ succeeded))
    later (inl q) = inl q
    later (inr (m, s)) = inr (Memᴰ.tail m, s)

    inserted :
        b.phase ≡ succeeded
        → (lookup id (insert j b previous) ≡ some a)
          ⊎ (Memᴰ (id, a) attempts × (a.phase ≡ succeeded))
        → (lookup id previous ≡ some a) ⊎ (Memᴰ (id, a) ((j, b) ∷ attempts) × (a.phase ≡ succeeded))
    inserted s (inr (m, t)) = inr (Memᴰ.tail m, t)
    inserted s (inl q) = elim (String-cases j id) [
      | inr p ↦ inl (rw (lookup-insert, p.1) at q)
      | inl p ↦
          let same : b ≡ a = cc (rw (lookup-insert, p.1) at q) in
          inr (Memᴰ.head (cc (p.0, same)), ap (λ (x : Attempt). x.phase) (sym same) ∙ s)
    ]

    step :
        ((prev : Map Attempt)
          → carry_over attempts prev ≡ ok result
          → (lookup id prev ≡ some a) ⊎ (Memᴰ (id, a) attempts × (a.phase ≡ succeeded)))
        → (p : Phase) → b.phase ≡ p
        → carry_over attempts (elim p [ succeeded ↦ insert j b previous | _ ↦ previous ])
          ≡ ok result
        → (lookup id previous ≡ some a) ⊎ (Memᴰ (id, a) ((j, b) ∷ attempts) × (a.phase ≡ succeeded))
    step ih succeeded s k = inserted s (ih (insert j b previous) k)
    step ih _ s k = later (ih previous k)

module _ (d : Digests) where
  fresh-IsSound :
      (p : Plan) (previous : Map Attempt)
      → validate p ≡ ok tt
      → ((id : String) (a : Attempt)
          → lookup id previous ≡ some a
          → (n : Node) × Entry d n a × (a.phase ≡ succeeded))
      → IsSound d (record (fresh p) { previous = previous })
  fresh-IsSound p previous v h = record {
    distinct = (validate-nodes p v).1;
    attempts = λ id a m. elim m [ ];
    previous = h;
  }

  pub revise-cases :
      (old s : State) (p : Plan)
      → revise d old p ≡ ok s
      → (s ≡ old)
        ⊎ ((p.id ≡ old.plan.id)
            × (int_eq p.revision (next_revision old.plan.revision) ≡ true)
            × ((previous : Map Attempt) × (carry_over old.attempts [] ≡ ok previous)
                × (s ≡ record (fresh p) { previous = previous })))
  unfolding revise
  revise-cases old s p h = elim (Bool-cases (d.of_plan p == d.of_plan old.plan)) [
    | inl e ↦ inl (cc (rw (e, revise) at h))
    | inr e ↦
        elim (Bool-cases (
          not (p.id == old.plan.id) || not (int_eq p.revision (next_revision old.plan.revision)))) [
            | inl q ↦ cc (rw (e, q, revise) at h)
            | inr q ↦ elim (Result-cases (carry_over old.attempts [])) [
              | inr (x, c) ↦ cc (rw (e, q, c, revise) at h)
              | inl (previous, c) ↦
                  let same_id : (p.id == old.plan.id) ≡ true = ground arith in
                  inr (
                    (eq_iff p.id old.plan.id).0 same_id,
                    ground arith,
                    (previous, c, cc (rw (e, q, c, revise) at h)),
                  )
            ]
          ]
  ]

  revise-IsSound :
      (old s : State) (p : Plan)
      → validate p ≡ ok tt
      → IsSound d old
      → revise d old p ≡ ok s
      → IsSound d s
  revise-IsSound old s p v h e = elim (revise-cases old s p e) [
    | inl q ↦ subst (IsSound d) (sym q) h
    | inr (_, _, (previous, c, q)) ↦ subst (IsSound d) (sym q) (
        fresh-IsSound p previous v (λ id a at.
          elim (carry_over-origin old.attempts [] previous id a c at) [
            | inl z ↦ cc (lookup-nil {V = Attempt} id, z)
            | inr (m, t) ↦ let (n, _, _, entry) = h.attempts id a m in (n, entry, t)
          ]))
  ]

  pub apply-valid :
      (o : Option State) (p : Plan) (s : State) → apply d o p ≡ ok s → validate p ≡ ok tt
  unfolding apply
  apply-valid o p s h = elim (Result-cases (validate p)) [
    | inl (u, e) ↦ e
    | inr (x, e) ↦ cc (rw (e, apply) at h)
  ]

  apply_first : (p : Plan) (s : State) → apply d none p ≡ ok s → IsSound d s
  unfolding apply
  apply_first p s h =
      let v = apply-valid none p s h in
      let same : fresh p ≡ s = cc (rw (v, apply) at h) in
      subst (IsSound d) same (fresh-IsSound p [] v (λ id a z. cc (lookup-nil {V = Attempt} id, z)))

  pub apply-revise :
      (old s : State) (p : Plan) → apply d (some old) p ≡ ok s → revise d old p ≡ ok s
  unfolding apply
  apply-revise old s p h = rw (apply-valid (some old) p s h, apply) at h

  resume_from-Backing :
      (outs : List String) (a : Attempt) (p : Phase)
      → a.phase ≡ p
      → Backing outs a p
      → IsHonest outs (resume_from p a) × ((resume_from p a).fingerprint ≡ a.fingerprint)
  unfolding resume_from
  resume_from-Backing outs a suspended e h = elim (String-cases a.validator_name "") [
    | inl p ↦ rw p.1 (p.0, refl)
    | inr p ↦ rw p.1 (suspended_validating p.0 h, refl)
  ]
    where
      suspended_validating :
          a.validator_name ≢ ""
          → (a.validator_name ≡ "") ⊎ IsValidating outs a
          → IsValidating outs (record a { phase = validating })
      suspended_validating ne (inl q) = absurd (ne q)
      suspended_validating ne (inr v) = IsValidating-update a _ refl refl refl v
  resume_from-Backing outs a starting e h = (subst (Backing outs a) (sym e) h, refl)
  resume_from-Backing outs a running e h = (subst (Backing outs a) (sym e) h, refl)
  resume_from-Backing outs a stopping e h = (subst (Backing outs a) (sym e) h, refl)
  resume_from-Backing outs a validating e h = (subst (Backing outs a) (sym e) h, refl)
  resume_from-Backing outs a validation_stopping e h = (subst (Backing outs a) (sym e) h, refl)
  resume_from-Backing outs a succeeded e h = (subst (Backing outs a) (sym e) h, refl)
  resume_from-Backing outs a failed e h = (subst (Backing outs a) (sym e) h, refl)

  resumed-Entry : (n : Node) (a : Attempt) → Entry d n a → Entry d n (resumed a)
  unfolding resumed
  resumed-Entry n a t =
      let (honest, print) = resume_from-Backing n.outputs a a.phase refl t.honest in
      record { files = t.files; made_for = print ∙ t.made_for; honest = honest }

  resume_all-mem :
      (m : Map Attempt) (id : String) (a : Attempt)
      → Memᴰ (id, a) (resume_all m)
      → (c : Attempt) × Memᴰ (id, c) m × (a ≡ resumed c)
  unfolding resume_all
  resume_all-mem [] id a k = elim k [ ]
  resume_all-mem ((j, b) ∷ m) id a (Memᴰ.head q) =
      (b, Memᴰ.head (cc (ap (λ x. x.0) q)), ap (λ x. x.1) q)
  resume_all-mem ((j, b) ∷ m) id a (Memᴰ.tail k) =
      let (c, l, q) = resume_all-mem m id a k in (c, Memᴰ.tail l, q)

  resume-IsSound : (s s' : State) → IsSound d s → resume s ≡ some s' → IsSound d s'
  unfolding resume
  resume-IsSound s s' h e = elim (Bool-cases (all_settled s.attempts)) [
    | inr q ↦ cc (rw (q, resume) at e)
    | inl q ↦ subst (IsSound d) (some-inj (rw (q, resume) at e)) (record {
      distinct = h.distinct;
      attempts = λ id a m.
          let (c, l, same) = resume_all-mem s.attempts id a m in
          let (n, k, at, entry) = h.attempts id c l in
          (n, k, at, subst (Entry d n) (sym same) (resumed-Entry n c entry));
      previous = h.previous;
    })
  ]
    where
      some-inj : {x y : State} → some x ≡ some y → x ≡ y
      some-inj q = cc

-- The states that the operations of the engine reach. Each finds the world as it may be.
pub data Reach {W : Type 0} (b : Backend W) (d : Digests) (scope : String) : State → Type 0 where
  first : (p : Plan) {s : State} → apply d none p ≡ ok s → Reach b d scope s
  revised :
      (p : Plan) {s s' : State}
      → Reach b d scope s
      → apply d (some s) p ≡ ok s'
      → Reach b d scope s'
  ticked : {s : State} (w : W) → Reach b d scope s → Reach b d scope (tick b d scope s w).1
  paused : {s : State} (w : W) → Reach b d scope s → Reach b d scope (pause b d scope s w).1
  resumed_to : {s s' : State} → Reach b d scope s → resume s ≡ some s' → Reach b d scope s'

module _ {W : Type 0} (b : Backend W) (d : Digests) (scope : String)
    (collisions : NoCollision d) where
  any_world : Respects b d (λ w. Unit {0})
  any_world = record {
    ensure_keeps = λ l w q. tt;
    start_keeps = λ l w q. tt;
    result_keeps = λ l w q. tt;
    suspend_keeps = λ l w q. tt;
    save_keeps = λ s w h q. tt;
  }

  pub Reach-IsSound : {s : State} → Reach b d scope s → IsSound d s
  Reach-IsSound (first p {s = s} e) = apply_first d p s e
  Reach-IsSound (revised p {s = s} {s' = s'} r e) =
      revise-IsSound d s s' p (apply-valid d (some s) p s' e) (Reach-IsSound r)
        (apply-revise d s s' p e)
  Reach-IsSound (ticked {s = s} w r) =
      (tick-Kept b d scope (λ v. Unit {0}) any_world collisions s w (Reach-IsSound r) tt).sound
  Reach-IsSound (paused {s = s} w r) =
      (pause-Kept b d scope (λ v. Unit {0}) any_world collisions s w (Reach-IsSound r) tt).sound
  Reach-IsSound (resumed_to {s = s} {s' = s'} r e) = resume-IsSound d s s' (Reach-IsSound r) e
