-- ===== src/Graph/Store/Exclusion.antt =====
-- Operators that share the lock of a graph (engine/ax/internal/taskgraph/store.go), in any interleaving.
use task_a.Prelude.{
  String, ℕ, true, false, List, [], ◌∷◌, ◌++◌, Option, none, some, ok, err, ◌≡◌, ◌∙◌,
}
use task_a.Graph.Store.{LockClient, acquire, give_back}

-- The lock's value under each key, with the expiration it was set with, and what the passing of time does. A
-- call that fails may have taken the lock, but takes none from another owner; a key without an expiration
-- does not expire.
pub record IsLock {W : Type 0} (c : LockClient W) (holder : W → String → Option (String × ℕ))
    (elapse : ℕ → W → W) : Type 0 where
  pub taken :
      (key owner : String) (e : ℕ) (w : W)
      → (c.set_nx key owner e w).0 ≡ ok true
      → (holder w key ≡ none) × (holder (c.set_nx key owner e w).1 key ≡ some (owner, e))
  pub refused :
      (key owner : String) (e : ℕ) (w : W)
      → (c.set_nx key owner e w).0 ≡ ok false
      → holder (c.set_nx key owner e w).1 key ≡ holder w key
  pub failed :
      (key owner : String) (e : ℕ) (o : String × ℕ) (x : String) (w : W)
      → (c.set_nx key owner e w).0 ≡ err x
      → holder w key ≡ some o
      → holder (c.set_nx key owner e w).1 key ≡ some o
  pub freed :
      (key owner : String) (e : ℕ) (w : W)
      → (c.release key owner w).0 ≡ ok tt
      → holder w key ≡ some (owner, e)
      → holder (c.release key owner w).1 key ≡ none
  pub lasts :
      (key owner : String) (n : ℕ) (w : W)
      → holder w key ≡ some (owner, 0)
      → holder (elapse n w) key ≡ some (owner, 0)

module _ {W : Type 0} (c : LockClient W) (holder : W → String → Option (String × ℕ))
    (elapse : ℕ → W → W) (key : String) where
  -- The world, and the owners of the operations that run.
  abbrev pub Running : Type 0
  Running = W × List String

  -- A step of any operator on one graph: the three answers of the lock, work, of an operation or of
  -- anyone else, that leaves the lock alone, the end of an operation, with its release, a crash,
  -- without, and the passing of time.
  pub data Moves : Running → Running → Type 0 where
    enter :
        {w : W} {os : List String} (o : String)
        → (acquire c key o w).0 ≡ ok true
        → Moves (w, os) ((acquire c key o w).1, o ∷ os)
    refuse :
        {w : W} {os : List String} (o : String)
        → (acquire c key o w).0 ≡ ok false
        → Moves (w, os) ((acquire c key o w).1, os)
    fail :
        {w : W} {os : List String} (o e : String)
        → (acquire c key o w).0 ≡ err e
        → Moves (w, os) ((acquire c key o w).1, os)
    work : {w v : W} {os : List String} → holder v key ≡ holder w key → Moves (w, os) (v, os)
    leave :
        {w : W} (xs : List String) (o : String) (ys : List String)
        → Moves (w, xs ++ o ∷ ys) (give_back c key o w, xs ++ ys)
    crash :
        {w : W} (xs : List String) (o : String) (ys : List String)
        → Moves (w, xs ++ o ∷ ys) (w, xs ++ ys)
    pass : {w : W} {os : List String} (n : ℕ) → Moves (w, os) (elapse n w, os)

  pub data Reaches (start : Running) : Running → Type 0 where
    here : Reaches start start
    step : {r s : Running} → Reaches start r → Moves r s → Reaches start s

  -- Nobody runs, or one owner does, and holds the lock for good.
  abbrev pub IsExclusive : Running → Type 0
  IsExclusive (w, []) = Unit
  IsExclusive (w, o ∷ []) = holder w key ≡ some (o, 0)
  IsExclusive (w, o ∷ p ∷ os) = ⊥

  Moves-IsExclusive :
      IsLock c holder elapse → {r s : Running} → Moves r s → IsExclusive r → IsExclusive s
  Moves-IsExclusive lock {r = (w, [])} (enter o h) x = (lock.taken key o 0 w h).1
  Moves-IsExclusive lock {r = (w, p ∷ [])} (enter o h) x = cc ((lock.taken key o 0 w h).0, x)
  Moves-IsExclusive lock {r = (w, p ∷ q ∷ os)} (enter o h) x = elim x [ ]
  Moves-IsExclusive lock {r = (w, [])} (refuse o h) x = tt
  Moves-IsExclusive lock {r = (w, p ∷ [])} (refuse o h) x = lock.refused key o 0 w h ∙ x
  Moves-IsExclusive lock {r = (w, p ∷ q ∷ os)} (refuse o h) x = x
  Moves-IsExclusive lock {r = (w, [])} (fail o e h) x = tt
  Moves-IsExclusive lock {r = (w, p ∷ [])} (fail o e h) x = lock.failed key o 0 (p, 0) e w h x
  Moves-IsExclusive lock {r = (w, p ∷ q ∷ os)} (fail o e h) x = x
  Moves-IsExclusive lock {r = (w, [])} (work h) x = tt
  Moves-IsExclusive lock {r = (w, p ∷ [])} (work h) x = h ∙ x
  Moves-IsExclusive lock {r = (w, p ∷ q ∷ os)} (work h) x = x
  Moves-IsExclusive lock {r = (w, [])} (pass n) x = tt
  Moves-IsExclusive lock {r = (w, p ∷ [])} (pass n) x = lock.lasts key p n w x
  Moves-IsExclusive lock {r = (w, p ∷ q ∷ os)} (pass n) x = x
  Moves-IsExclusive lock (leave [] o []) x = tt
  Moves-IsExclusive lock (leave [] o (p ∷ ys)) x = elim x [ ]
  Moves-IsExclusive lock (leave (p ∷ []) o ys) x = elim x [ ]
  Moves-IsExclusive lock (leave (p ∷ q ∷ xs) o ys) x = elim x [ ]
  Moves-IsExclusive lock (crash [] o []) x = tt
  Moves-IsExclusive lock (crash [] o (p ∷ ys)) x = elim x [ ]
  Moves-IsExclusive lock (crash (p ∷ []) o ys) x = elim x [ ]
  Moves-IsExclusive lock (crash (p ∷ q ∷ xs) o ys) x = elim x [ ]

  -- Where nobody runs at first, at most one operation runs at a time in every interleaving of operators,
  -- and its owner holds the lock; the lock is taken to be atomic.
  pub Reaches-IsExclusive :
      (lock : IsLock c holder elapse) (w : W) (r : Running) → Reaches (w, []) r → IsExclusive r
  Reaches-IsExclusive lock w r here = tt
  Reaches-IsExclusive lock w r (step before move) =
      Moves-IsExclusive lock move (Reaches-IsExclusive lock w _ before)

  -- The lock of an owner that crashed: nobody runs.
  abbrev pub IsStale : String → Running → Type 0
  IsStale owner (w, []) = holder w key ≡ some (owner, 0)
  IsStale owner (w, o ∷ os) = ⊥

  Moves-IsStale :
      IsLock c holder elapse
      → (owner : String) {r s : Running} → Moves r s
      → IsStale owner r
      → IsStale owner s
  Moves-IsStale lock owner {r = (w, [])} (enter o h) x = cc ((lock.taken key o 0 w h).0, x)
  Moves-IsStale lock owner {r = (w, p ∷ os)} (enter o h) x = elim x [ ]
  Moves-IsStale lock owner {r = (w, [])} (refuse o h) x = lock.refused key o 0 w h ∙ x
  Moves-IsStale lock owner {r = (w, p ∷ os)} (refuse o h) x = x
  Moves-IsStale lock owner {r = (w, [])} (fail o e h) x = lock.failed key o 0 (owner, 0) e w h x
  Moves-IsStale lock owner {r = (w, p ∷ os)} (fail o e h) x = x
  Moves-IsStale lock owner {r = (w, [])} (work h) x = h ∙ x
  Moves-IsStale lock owner {r = (w, p ∷ os)} (work h) x = x
  Moves-IsStale lock owner {r = (w, [])} (pass n) x = lock.lasts key owner n w x
  Moves-IsStale lock owner {r = (w, p ∷ os)} (pass n) x = x
  Moves-IsStale lock owner (leave [] o ys) x = elim x [ ]
  Moves-IsStale lock owner (leave (p ∷ xs) o ys) x = elim x [ ]
  Moves-IsStale lock owner (crash [] o ys) x = elim x [ ]
  Moves-IsStale lock owner (crash (p ∷ xs) o ys) x = elim x [ ]

  stays :
      (lock : IsLock c holder elapse) (owner : String) (w : W) (r : Running)
      → holder w key ≡ some (owner, 0)
      → Reaches (w, []) r
      → IsStale owner r
  stays lock owner w r h here = h
  stays lock owner w r h (step before move) =
      Moves-IsStale lock owner move (stays lock owner w _ h before)

  -- Where an operation runs and its owner crashes, the lock stays and no operation runs again, in every
  -- interleaving of operators and however much time passes: the lock is taken without an expiration. A
  -- recovery by hand is not a step.
  pub Reaches-IsStale :
      (lock : IsLock c holder elapse) (owner : String) (start w : W) (r : Running)
      → Reaches (start, []) (w, owner ∷ [])
      → Reaches (w, []) r
      → IsStale owner r
  Reaches-IsStale lock owner start w r running after =
      stays lock owner w r (Reaches-IsExclusive lock start (w, owner ∷ []) running) after
