-- ===== src/Graph/Store/Examples.antt =====
-- Two operators of one graph, and a state in Redis.
use task_a.Prelude.{
  String, ℕ, zero, suc, ◌-◌, ltb, Exec, err, eq_refl, ap, Bool, true, false, [], ◌∷◌, Option, none,
  some, Result, ok, ◌==◌, if◌then◌else◌, ◌≡◌, refl, lookup, insert,
}
use task_a.Graph.Samples.{two_tasks}
use task_a.Graph.Engine.Defs.{fresh}
use task_a.Graph.Store.{StateCodec, LockClient, LockError, load, save, locked}
use task_a.Graph.Store.Exclusion.{
  IsLock, enter, refuse, pass, Reaches, here, step, IsExclusive, IsStale, Reaches-IsExclusive,
  Reaches-IsStale,
}
use task_a.Graph.Store.Guarded.{IsError, outcome, locked-held, locked-taken}
use task_a.Graph.Store.Saved.{load-save}
use task_a.Ax.Redis.Samples.{local, local-IsRedis, local-IsUp, text_at, empty_server}

-- A lock whose world is its value and the time it has left, where 0 is for good; it has one key.
abbrev Value : Type 0
Value = Option (String × ℕ)

abbrev is_free : Value → Bool
is_free none = true
is_free (some o) = false

abbrev take : String → ℕ → Value → Value
take o e none = some (o, e)
take o e (some p) = some p

abbrev drop_own : String → Value → Value
drop_own o none = none
drop_own o (some (p, e)) = if p == o then none else some (p, e)

abbrev wait : ℕ → Value → Value
wait n none = none
wait n (some (o, zero)) = some (o, 0)
wait n (some (o, suc e)) = if ltb n (suc e) then some (o, suc e - n) else none

abbrev one_lock : LockClient Value
one_lock = record {
  set_nx = λ k o e w. (ok (is_free w), take o e w);
  release = λ k o w. (ok tt, drop_own o w);
}

abbrev value : Value → String → Value
value w k = w

one_lock-IsLock : IsLock one_lock value wait
one_lock-IsLock = record {
  taken = taken_lem;
  refused = refused_lem;
  failed = λ k o e p x w h. cc;
  freed = λ k o e w a h. rw (h, eq_refl) refl;
  lasts = λ k o n w h. ap (wait n) h;
}
  where
    taken_lem :
        (k o : String) (e : ℕ) (w : Value)
        → ◌≡◌ {A = Result String Bool} (ok (is_free w)) (ok true)
        → (w ≡ none) × (take o e w ≡ some (o, e))
    taken_lem k o e none h = (refl, refl)
    taken_lem k o e (some p) h = cc (h)

    refused_lem :
        (k o : String) (e : ℕ) (w : Value)
        → ◌≡◌ {A = Result String Bool} (ok (is_free w)) (ok false)
        → take o e w ≡ w
    refused_lem k o e none h = cc (h)
    refused_lem k o e (some p) h = refl

-- A lock with an expiration is lost, one without is kept.
expired : wait 9 (take "one" 5 none) ≡ none
expired = refl

kept : wait 9 (take "one" 0 none) ≡ some ("one", 0)
kept = refl

-- One operator enters and another is refused.
abbrev contended : Reaches one_lock value wait "lock" (none, []) (some ("one", 0), "one" ∷ [])
contended = step (step (step here (enter "one" refl)) (pass 9)) (refuse "two" refl)

Reaches-IsExclusive_example : IsExclusive one_lock value wait "lock" (some ("one", 0), "one" ∷ [])
Reaches-IsExclusive_example =
    Reaches-IsExclusive one_lock value wait "lock" one_lock-IsLock none
      (some ("one", 0), "one" ∷ []) contended

Reaches-IsStale_example : IsStale one_lock value wait "lock" "one" (some ("one", 0), [])
Reaches-IsStale_example =
    Reaches-IsStale one_lock value wait "lock" one_lock-IsLock "one" none (some ("one", 0))
      (some ("one", 0), []) contended (step (step here (pass 9)) (refuse "two" refl))

locked-held_example :
    (y : Result (LockError String) ℕ × Value) × ((op : Exec Value String ℕ)
      → locked one_lock "p" "g" "two" op (some ("one", 0)) ≡ y)
    × IsError y.0
    × (y.1 ≡ some ("one", 0))
locked-held_example =
    locked-held one_lock value wait "p" "g" "two" one_lock-IsLock ("one", 0) (some ("one", 0)) refl

-- An operation that fails releases the lock too.
abbrev failing : Exec Value String ℕ
failing v = (err "no", v)

locked-taken_example :
    (◌≡◌ {A = Value} (some ("one", 0)) (some ("one", 0)))
    × (locked one_lock "p" "g" "one" failing none ≡ (outcome (failing (some ("one", 0))).0, none))
    × ((locked one_lock "p" "g" "one" failing none).1 ≡ none)
locked-taken_example =
    locked-taken one_lock value wait "p" "g" "one" one_lock-IsLock failing none (some ("one", 0))
      (λ u. refl) refl refl

-- JSON, for one state
abbrev one_state : StateCodec
one_state = record {
  encode = λ s. some "state";
  decode = λ text. some (fresh two_tasks);
  revision = λ s. "1";
}

program : Unit {0}
unfolding load save lookup insert
program = tt

load-save_example :
    (load local one_state "p"
      (fresh two_tasks).plan.id
      (save local one_state "p" (fresh two_tasks) empty_server).1).0
    ≡ ok (fresh two_tasks)
unfolding program
load-save_example =
    load-save local one_state text_at local-IsRedis local-IsUp "p" (fresh two_tasks) empty_server
      (λ text h. refl) refl
