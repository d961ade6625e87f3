-- ===== src/Graph/Store/Saved.antt =====
-- A state that was saved, loaded back (engine/ax/internal/taskgraph/store.go).
use task_a.Prelude.{
  String, Option, none, some, Result, ok, err, eq_refl, ◌≡◌, refl, ap, ◌∙◌, inl, inr, Option-cases,
}
use task_a.Graph.Model.{State}
use task_a.Graph.Store.{StateCodec, key, load, save, loaded, stored, save_commands, read_state}
use task_a.Ax.Redis.Client.{Client, ClientError, IsRedis, texts_after}
use task_a.Ax.Redis.Listed.{IsUp}

module _ {W : Type 0} (c : Client W) (j : StateCodec) (texts : W → String → Option String)
    (redis : IsRedis c texts) (up : IsUp c) (project : String) where
  loaded-some :
      (text : String) (x : Result ClientError (Option String) × W)
      → x.0 ≡ ok (some text)
      → (loaded c j project x).0 ≡ read_state c j project (j.decode text)
  loaded-some text (err e, v) h = cc (h)
  loaded-some text (ok none, v) h = cc (h)
  loaded-some text (ok (some other), v) h =
      let same : other ≡ text = cc (h) in ap (λ t. read_state c j project (j.decode t)) same

  kept :
      (k : String) (o : Option String) (x : Result ClientError (Unit {0}) × W)
      → (x.0 ≡ ok tt → texts x.1 k ≡ o)
      → (stored c j project x).0 ≡ ok tt
      → texts (stored c j project x).1 k ≡ o
  kept k o (err e, v) h done = cc (done)
  kept k o (ok u, v) h done = h refl

  -- A state that `Save` has taken is what `Load` then gives for its plan, where JSON is faithful to the state
  -- and reads are answered. Redis is taken to keep its values.
  pub load-save :
      (s : State) (w : W)
      → ((text : String) → j.encode s ≡ some text → j.decode text ≡ some s)
      → (save c j project s w).0 ≡ ok tt
      → (load c j project s.plan.id (save c j project s w).1).0 ≡ ok s
  unfolding load save
  load-save s w faithful done = elim (Option-cases (j.encode s)) [
    | inl e ↦ cc (rw (e) at done)
    | inr (text, e) ↦
        let k = key project s.plan.id in
        let cs = save_commands c j project s text in
        let self : texts_after cs (texts w) k ≡ some text = rw (eq_refl k) refl in
        let there : texts (stored c j project (c.exec cs w)).1 k ≡ some text =
          kept k (some text) (c.exec cs w) (λ f. redis.execs cs w k f ∙ self) (rw (e) at done) in
        let (o, q) = up.got k (stored c j project (c.exec cs w)).1 in
        rw (e) (
          loaded-some text (c.get k (stored c j project (c.exec cs w)).1)
            (q ∙ ap ok (redis.gets k _ o q ∙ there))
          ∙ ap (read_state c j project) (faithful text e))
  ]
