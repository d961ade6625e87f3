-- ===== src/Ax/Redis/Batches.antt =====
-- The order in which a subscription of the Redis store (engine/ax/internal/store/redis/store.go) hands
-- events out.
use task_a.Prelude.{
  ℕ, zero, suc, Bool, false, List, [], ◌∷◌, length, Option, none, some, Result, ok, err, Exec, ◌≡◌,
  refl, ap, ◌∙◌,
}
use task_a.Ax.Memory.{TaskEvent}
use task_a.Ax.Redis.Client.{Client}
use task_a.Ax.Redis.Subscription.{Subscription, Stop, read, next, next_from}

abbrev pub drained : Subscription → Subscription
drained sub = record sub { pending = [] }

module _ {W : Type 0} where
  abbrev with_first :
      TaskEvent
      → Result Stop (Option (List TaskEvent) × Subscription) × W
      → Result Stop (Option (List TaskEvent) × Subscription) × W
  with_first e (err x, v) = (err x, v)
  with_first e (ok (none, s), v) = (ok (none, s), v)
  with_first e (ok (some es, s), v) = (ok (some (e ∷ es), s), v)

  abbrev and_then :
      (Subscription → Exec W Stop (Option (List TaskEvent) × Subscription))
      → Result Stop (Option TaskEvent × Subscription) × W
      → Result Stop (Option (List TaskEvent) × Subscription) × W
  and_then rest (err x, v) = (err x, v)
  and_then rest (ok (none, s), v) = (ok (none, s), v)
  and_then rest (ok (some e, s), v) = with_first e (rest s v)

module _ {W : Type 0} (c : Client W) (done : W → Bool) where
  -- So many calls of `Next`, each with `fuel` reads at most; `none` where one still waits.
  abbrev pub take_next :
      (fuel n : ℕ) → Subscription → Exec W Stop (Option (List TaskEvent) × Subscription)
  take_next fuel zero sub w = (ok (some [], sub), w)
  take_next fuel (suc n) sub w = and_then (take_next fuel n) (next c done fuel sub w)

  -- Reads that give no event lead from one world to another.
  pub data Quiet (sub : Subscription) : ℕ → W → W → Type 0 where
    here : {w : W} → Quiet sub 0 w w
    later :
        {k : ℕ} {w u v : W}
        → done w ≡ false
        → read c sub w ≡ (ok [], u)
        → Quiet sub k u v
        → Quiet sub (suc k) w v

  take_next-pending :
      (fuel : ℕ) (sub : Subscription) (es : List TaskEvent) (w : W)
      → take_next fuel (length es) (record sub { pending = es }) w
        ≡ (ok (some es, record sub { pending = [] }), w)
  unfolding next next_from
  take_next-pending fuel sub [] w = refl
  take_next-pending fuel sub (e ∷ es) w = ap (with_first e) (take_next-pending fuel sub es w)

  next_from-Quiet :
      (sub : Subscription) {k : ℕ} {w v u : W} (e : TaskEvent) (es : List TaskEvent)
      → Quiet sub k w v
      → done v ≡ false
      → read c sub v ≡ (ok (e ∷ es), u)
      → next_from c done sub (suc k) [] w ≡ (ok (some e, record sub { pending = es }), u)
  unfolding next_from
  next_from-Quiet sub e es Quiet.here live got = rw (live, got) refl
  next_from-Quiet sub e es (Quiet.later awake empty rest) live got =
      rw (awake, empty) (next_from-Quiet sub e es rest live got)

  -- A subscription hands out the events of its next batch one at a time, in their order and each once,
  -- after as many empty reads as there are: where `k` reads give nothing and the next gives a batch,
  -- as many calls of `Next` as the batch is long, with `k + 1` reads allowed, give the batch, and read
  -- no further. The context is not cancelled meanwhile.
  pub take_next-batch :
      (sub : Subscription) (k : ℕ) (w v u : W) (e : TaskEvent) (es : List TaskEvent)
      → Quiet (drained sub) k w v
      → done v ≡ false
      → read c (drained sub) v ≡ (ok (e ∷ es), u)
      → take_next (suc k) (length (e ∷ es)) (drained sub) w ≡ (ok (some (e ∷ es), drained sub), u)
  unfolding next
  take_next-batch sub k w v u e es quiet live got =
      ap (and_then (take_next (suc k) (length es)))
        (next_from-Quiet (drained sub) e es quiet live got)
      ∙ ap (with_first e) (take_next-pending (suc k) sub es u)
