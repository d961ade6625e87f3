-- ===== src/Ax/Redis/Examples.antt =====
-- Runs of the Redis store (engine/ax/internal/store/redis/store.go) on the server in memory.
use task_a.Prelude.{
  String, pos, [], ◌∷◌, lookup, insert, none, some, ok, ◌≡◌, refl, sym, ap, false, ok-injective,
}
use task_a.Ax.Memory as Memory
use task_a.Ax.Memory.{completed, default_atespace, TaskEvent, MemoryStore}
use task_a.Ax.Redis.Client.{Message}
use task_a.Ax.Redis.Records.{get_record, list_records}
use task_a.Ax.Redis.Tasks.{typed, tasks_of, save_task, get_task, update_task_status, entry}
use task_a.Ax.Redis.Listed.{collect, list_records-eq}
use task_a.Ax.Redis.RoundTrip.{IsStored, get_task-save_task, get_task-update_task_status}
use task_a.Ax.Redis.Subscription.{Subscription, event_from_message, read}
use task_a.Ax.Redis.Batches.{take_next, drained, Quiet, take_next-batch}
use task_a.Ax.Redis.Samples.{
  Server, local, local-IsRedis, local-IsUp, text_at, named, by_name, options, empty_server,
}

program : Unit {0}
unfolding lookup insert save_task get_task get_record list_records update_task_status
    event_from_message read
program = tt

abbrev saved : Server
saved = (save_task local by_name options 0 (named "build") empty_server).1

get_task-save_task_example :
    IsStored (named "build") (typed (completed (named "build")))
    × ((get_task local by_name options "default" "build" saved).0
        ≡ ok (typed (completed (named "build"))))
unfolding program
get_task-save_task_example =
    get_task-save_task local by_name text_at local-IsRedis local-IsUp options 0 (named "build")
      (typed (completed (named "build"))) empty_server
      (λ text h. ap (λ n. ok (typed (completed (named n)))) (sym (ok-injective h))) refl

get_task-update_task_status_example :
    (get_task local by_name options "" "build"
      (update_task_status local by_name options "" "build" none saved).1).0
    ≡ (get_task local by_name options "" "build" saved).0
unfolding program
get_task-update_task_status_example =
    get_task-update_task_status local by_name text_at local-IsRedis local-IsUp options "build" none
      saved refl

list_records-eq_example :
    (list_records local by_name (tasks_of options) "default" (pos 0) (pos 49) saved).0
    ≡ ok (
        collect
          (λ name. (get_record local by_name (tasks_of options) "default" name saved).0)
          ("build" ∷ []))
unfolding program
list_records-eq_example =
    list_records-eq local by_name (tasks_of options) text_at local-IsRedis local-IsUp "default"
      (pos 0) (pos 49) ("build" ∷ []) saved refl refl refl

abbrev message : String → Message
message n = record { id = n; values = entry "reconcile" "default" n }

abbrev of_worker : Subscription
of_worker = record { store = options; group = "controllers"; consumer = "one"; pending = [] }

abbrev two_batches : Server
two_batches = record empty_server { batches = [] ∷ (message "build" ∷ message "test" ∷ []) ∷ [] }

abbrev event_of : String → TaskEvent
event_of n = record { id = n; atespace = "default"; name = n; action = "reconcile" }

take_next-batch_example :
    take_next local (λ w. false) 2 2 (drained of_worker) two_batches
    ≡ (ok (some (event_of "build" ∷ event_of "test" ∷ []), drained of_worker), empty_server)
unfolding program
take_next-batch_example =
    take_next-batch local (λ w. false) of_worker 1 two_batches
      (record empty_server { batches = (message "build" ∷ message "test" ∷ []) ∷ [] }) empty_server
      (event_of "build") (event_of "test" ∷ []) (Quiet.later refl refl Quiet.here) refl refl
