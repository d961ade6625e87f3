-- ===== src/Ax/Substrate/Examples.antt =====
-- An actor that has crashed, and the one that takes its place (engine/ax/internal/substrate/client.go).
use task_a.Prelude.{ℕ, zero, suc, true, Option, none, some, Result, ok, err, ◌≡◌, refl}
use task_a.Ax.Substrate.{
  Code, Actor, crashed, ordinary, ActorRequest, Control, recreate, by_state, ensure_actor,
}
use task_a.Ax.Substrate.Usable.{Gives, ensure_actor-Gives}

abbrev old_actor : Actor
old_actor = record { name = "t"; state = crashed; worker_ip = none }

abbrev new_actor : Actor
new_actor = record { name = "t"; state = ordinary "running"; worker_ip = none }

-- The world is the number of creations that still meet the old actor.
abbrev made : ℕ → Result Code (Option Actor) × ℕ
made zero = (ok (some new_actor), 0)
made (suc n) = (err Code.already_exists, n)

abbrev service : Control ℕ (Unit {0})
service = record {
  create_atespace = λ a w. (ok tt, w);
  get_template = λ a n w. (ok none, w);
  create_template = λ t w. (ok (some t), w);
  delete_template = λ a n w. (ok tt, w);
  create_actor = λ r w. made w;
  get_actor = λ a n w. (ok (some old_actor), w);
  delete_actor = λ a n w. (ok tt, w);
  resume_actor = λ a n w. (ok none, w);
  suspend_actor = λ a n w. (ok tt, w);
  wait = λ w. (true, w);
}

abbrev request : ActorRequest
request = record {
  atespace = "default";
  name = "t";
  template_atespace = "default";
  template_name = "base";
}

service-Gives : (w : ℕ) → Gives (service.create_actor request w).0
service-Gives zero = tt
service-Gives (suc n) = tt

replaced : (ensure_actor service request 3).0 ≡ ok (some new_actor)
unfolding ensure_actor by_state recreate
replaced = refl

ensure_actor-Gives_example : Gives (ensure_actor service request 3).0
ensure_actor-Gives_example = ensure_actor-Gives service request service-Gives 3
