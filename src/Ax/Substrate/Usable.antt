-- ===== src/Ax/Substrate/Usable.antt =====
-- The actors that `EnsureActor` (engine/ax/internal/substrate/client.go) answers.
use task_a.Prelude.{
  ℕ, zero, suc, Bool, true, false, Option, none, some, Result, ok, err, Exec, ◌≡◌, refl, subst,
}
use task_a.Ax.Substrate.{
  Code, Actor, ActorState, crashed, deleting, ordinary, ActorRequest, Control, SubstrateError,
  retried, waited, recreate, by_state, on_existing, on_create, ensure_actor,
}

abbrev pub IsUsable : ActorState → Type 0
IsUsable crashed = ⊥
IsUsable deleting = ⊥
IsUsable (ordinary s) = Unit

-- An answer with an actor has one that can be used.
abbrev pub Gives : {E : Type 0} → Result E (Option Actor) → Type 0
Gives (err e) = Unit
Gives (ok none) = Unit
Gives (ok (some a)) = IsUsable a.state

module _ {W T : Type 0} (c : Control W T) (r : ActorRequest)
    (fresh : (w : W) → Gives (c.create_actor r w).0) where
  retried-Gives :
      (again : Exec W SubstrateError (Option Actor)) (x : Result Code (Option Actor) × W)
      → ((w : W) → Gives (again w).0)
      → Gives x.0
      → Gives (retried c r again x).0
  retried-Gives again (ok none, w) h g = tt
  retried-Gives again (ok (some a), w) h g = g
  retried-Gives again (err Code.already_exists, w) h g = h w
  retried-Gives again (err Code.not_found, w) h g = tt
  retried-Gives again (err (Code.other e), w) h g = tt

  waited-Gives :
      (again : Exec W SubstrateError (Option Actor)) (x : Bool × W)
      → ((w : W) → Gives (again w).0)
      → Gives (waited c r again x).0
  waited-Gives again (false, w) h = tt
  waited-Gives again (true, w) h = retried-Gives again (c.create_actor r w) h (fresh w)

  recreate-Gives : (n : ℕ) (w : W) → Gives (recreate c r n w).0
  unfolding recreate
  recreate-Gives zero w = tt
  recreate-Gives (suc n) w = waited-Gives (recreate c r n) (c.wait w) (recreate-Gives n)

  by_state-Gives : (s : ActorState) (a : Actor) (w : W) → s ≡ a.state → Gives (by_state c r s a w).0
  unfolding by_state recreate
  by_state-Gives crashed a w e = recreate-Gives 20 _
  by_state-Gives deleting a w e = recreate-Gives 20 w
  by_state-Gives (ordinary s) a w e = subst IsUsable e tt

  on_existing-Gives : (x : Result Code (Option Actor) × W) → Gives (on_existing c r x).0
  on_existing-Gives (ok (some a), w) = by_state-Gives a.state a w refl
  on_existing-Gives (ok none, w) = tt
  on_existing-Gives (err e, w) = tt

  on_create-Gives : (x : Result Code (Option Actor) × W) → Gives x.0 → Gives (on_create c r x).0
  on_create-Gives (ok none, w) g = tt
  on_create-Gives (ok (some a), w) g = g
  on_create-Gives (err Code.already_exists, w) g =
      on_existing-Gives (c.get_actor r.atespace r.name w)
  on_create-Gives (err Code.not_found, w) g = tt
  on_create-Gives (err (Code.other e), w) g = tt

  -- `EnsureActor` never answers an actor that has crashed or is being deleted: it deletes a crashed one and
  -- waits, for twenty attempts at most. The service is taken to create no such actor.
  pub ensure_actor-Gives : (w : W) → Gives (ensure_actor c r w).0
  unfolding ensure_actor
  ensure_actor-Gives w = on_create-Gives (c.create_actor r w) (fresh w)
