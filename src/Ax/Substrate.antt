-- ===== src/Ax/Substrate.antt =====
-- The calls of Substrate that keep an actor (engine/ax/internal/substrate/client.go). A nil message of the
-- service is `none`.
pub mod Usable
pub mod Examples
use task_a.Prelude.{
  String, ℕ, zero, suc, Bool, true, false, List, [], Option, none, some, Result, ok, err, Exec,
}

-- The code of a status of gRPC, with the text of the others.
pub data Code : Type 0 where
  already_exists not_found : Code
  other : String → Code

pub data ActorState : Type 0 where
  crashed deleting : ActorState
  ordinary : String → ActorState

pub record Actor : Type 0 where
  pub name : String
  pub state : ActorState
  pub worker_ip : Option String

pub record ActorRequest : Type 0 where
  pub atespace : String
  pub name : String
  pub template_atespace : String
  pub template_name : String

-- The control service; `T` is the type of the templates. `wait` is `false` where the context is done first.
pub record Control (W T : Type 0) : Type 0 where
  pub create_atespace : String → Exec W Code (Unit {0})
  pub get_template : (atespace name : String) → Exec W Code (Option T)
  pub create_template : T → Exec W Code (Option T)
  pub delete_template : (atespace name : String) → Exec W Code (Unit {0})
  pub create_actor : ActorRequest → Exec W Code (Option Actor)
  pub get_actor : (atespace name : String) → Exec W Code (Option Actor)
  pub delete_actor : (atespace name : String) → Exec W Code (Unit {0})
  pub resume_actor : (atespace name : String) → Exec W Code (Option Actor)
  pub suspend_actor : (atespace name : String) → Exec W Code (Unit {0})
  pub wait : W → Bool × W

pub data SubstrateError : Type 0 where
  failed : Code → SubstrateError
  nil_actor still_deleting cancelled : SubstrateError

module _ {W A : Type 0} where
  abbrev passed_on : Result Code A × W → Result SubstrateError A × W
  passed_on (ok a, w) = (ok a, w)
  passed_on (err e, w) = (err (SubstrateError.failed e), w)

module _ {W : Type 0} where
  abbrev unless_exists : Result Code (Unit {0}) × W → Result SubstrateError (Unit {0}) × W
  unless_exists (ok u, w) = (ok tt, w)
  unless_exists (err Code.already_exists, w) = (ok tt, w)
  unless_exists (err Code.not_found, w) = (err (SubstrateError.failed Code.not_found), w)
  unless_exists (err (Code.other e), w) = (err (SubstrateError.failed (Code.other e)), w)

  abbrev unless_missing : Result Code (Unit {0}) × W → Result SubstrateError (Unit {0}) × W
  unless_missing (ok u, w) = (ok tt, w)
  unless_missing (err Code.not_found, w) = (ok tt, w)
  unless_missing (err Code.already_exists, w) = (err (SubstrateError.failed Code.already_exists), w)
  unless_missing (err (Code.other e), w) = (err (SubstrateError.failed (Code.other e)), w)

  abbrev resumed : Result Code (Option Actor) × W → Result SubstrateError (Actor × String) × W
  resumed (err e, w) = (err (SubstrateError.failed e), w)
  resumed (ok none, w) = (err nil_actor, w)
  resumed (ok (some a), w) = (ok (a, elim a.worker_ip [ none ↦ "" | some ip ↦ ip ]), w)

module _ {W T : Type 0} (c : Control W T) where
  unfoldable pub ensure_atespace : String → Exec W SubstrateError (Unit {0})
  ensure_atespace atespace w = unless_exists (c.create_atespace atespace w)

  abbrev created_template :
      (atespace name : String) → Result Code (Option T) × W → Result SubstrateError (Option T) × W
  created_template atespace name (ok (some t), w) = (ok (some t), w)
  created_template atespace name (ok none, w) = passed_on (c.get_template atespace name w)
  created_template atespace name (err Code.already_exists, w) =
      passed_on (c.get_template atespace name w)
  created_template atespace name (err Code.not_found, w) =
      (err (SubstrateError.failed Code.not_found), w)
  created_template atespace name (err (Code.other e), w) =
      (err (SubstrateError.failed (Code.other e)), w)

  abbrev existing_template :
      (atespace name : String)
      → T
      → Result Code (Option T) × W
      → Result SubstrateError (Option T) × W
  existing_template atespace name t (ok (some found), w) = (ok (some found), w)
  existing_template atespace name t (ok none, w) =
      created_template atespace name (c.create_template t w)
  existing_template atespace name t (err e, w) =
      created_template atespace name (c.create_template t w)

  -- `t` is the template that `BuildActorTemplate` makes of the arguments.
  unfoldable pub ensure_template : (atespace name : String) → T → Exec W SubstrateError (Option T)
  ensure_template atespace name t w =
      existing_template atespace name t (c.get_template atespace name w)

  module _ (r : ActorRequest) where
    abbrev pub retried :
        Exec W SubstrateError (Option Actor)
        → Result Code (Option Actor) × W
        → Result SubstrateError (Option Actor) × W
    retried again (ok a, w) = (ok a, w)
    retried again (err Code.already_exists, w) = again w
    retried again (err Code.not_found, w) = (err still_deleting, w)
    retried again (err (Code.other e), w) = (err still_deleting, w)

    abbrev pub waited :
        Exec W SubstrateError (Option Actor) → Bool × W → Result SubstrateError (Option Actor) × W
    waited again (false, w) = (err cancelled, w)
    waited again (true, w) = retried again (c.create_actor r w)

    -- The loop that waits for the earlier actor to go.
    unfoldable pub recreate : ℕ → Exec W SubstrateError (Option Actor)
    recreate zero w = (err still_deleting, w)
    recreate (suc n) w = waited (recreate n) (c.wait w)

    unfoldable pub by_state : ActorState → Actor → Exec W SubstrateError (Option Actor)
    unfolding recreate
    by_state crashed a w = recreate 20 (c.delete_actor r.atespace r.name w).1
    by_state deleting a w = recreate 20 w
    by_state (ordinary s) a w = (ok (some a), w)

    abbrev pub on_existing :
        Result Code (Option Actor) × W → Result SubstrateError (Option Actor) × W
    on_existing (ok (some a), w) = by_state a.state a w
    on_existing (ok none, w) = (ok none, w)
    on_existing (err e, w) = (err (SubstrateError.failed e), w)

    abbrev pub on_create : Result Code (Option Actor) × W → Result SubstrateError (Option Actor) × W
    on_create (ok a, w) = (ok a, w)
    on_create (err Code.already_exists, w) = on_existing (c.get_actor r.atespace r.name w)
    on_create (err Code.not_found, w) = (err (SubstrateError.failed Code.not_found), w)
    on_create (err (Code.other e), w) = (err (SubstrateError.failed (Code.other e)), w)

    unfoldable pub ensure_actor : Exec W SubstrateError (Option Actor)
    ensure_actor w = on_create (c.create_actor r w)

  unfoldable pub resume_actor : (atespace name : String) → Exec W SubstrateError (Actor × String)
  resume_actor atespace name w = resumed (c.resume_actor atespace name w)

  unfoldable pub suspend_actor : (atespace name : String) → Exec W SubstrateError (Unit {0})
  suspend_actor atespace name w = passed_on (c.suspend_actor atespace name w)

  unfoldable pub delete_actor : (atespace name : String) → Exec W SubstrateError (Unit {0})
  delete_actor atespace name w = unless_missing (c.delete_actor atespace name w)

  unfoldable pub delete_template : (atespace name : String) → Exec W SubstrateError (Unit {0})
  delete_template atespace name w = unless_missing (c.delete_template atespace name w)
