-- ===== src/Ax/Memory.antt =====
-- The in-memory store of AX (engine/ax/internal/store/memory/store.go). A stored message is a copy of the
-- caller's, and so is a value (`UpdateTaskStatus` keeps the caller's status itself, which its caller
-- drops), but for the messages that `SaveTask` sends to its watchers: these are the stored one itself,
-- and those not received yet change with it. The state stands for what the store's mutex guards. `R` is the type of a task's resource requests, `S` of a
-- workspace's specification and `M` of a model's.
pub mod Pages
pub mod Saved
use Prim.Native.String.{◌++◌}
use task_a.Prelude.{
  String, ℕ, zero, suc, ◌+◌, ◌-◌, ◌^◌, ℤ, pos, negsuc, Bool, true, false, not, ◌||◌, List, [], ◌∷◌,
  map, Map, lookup, insert, delete, Option, none, some, Result, ok, err, Exec, ◌==◌, ltb, leb,
  nat_eq, length, if◌then◌else◌,
}
use mathlib.Core.List as Lists
use task_a.Ax.Types.{ObjectMeta, Task, TaskStatus, Resource, no_meta, no_status, meta_of}

-- store.ErrNotFound, the error of a resource without a name, and a nil pointer that is read
pub data StoreError : Type 0 where
  not_found name_required panic : StoreError

pub record TaskEvent : Type 0 where
  pub id : String
  pub atespace : String
  pub name : String
  pub action : String

-- A message in a channel; `shared` where it is the stored message itself.
pub record Sent (R : Type 0) : Type 0 where
  pub task : Task R
  pub shared : Bool

-- A channel of a watcher, with its capacity of 10; `ident` tells the channels apart.
pub record Watcher (R : Type 0) : Type 0 where
  pub ident : ℕ
  pub buffer : List (Sent R)

pub record MemoryStore (R S M : Type 0) : Type 0 where
  pub tasks : Map (Task R)
  pub models : Map (Resource M)
  pub workspaces : Map (Resource S)
  pub events : List TaskEvent
  pub watchers : Map (List (Watcher R))
  pub made : ℕ

-- An empty atespace is "default".
unfoldable pub task_key : String → String → String
task_key atespace name = (if atespace == "" then "default" else atespace) ++ ":" ++ name

abbrev pub default_atespace : ObjectMeta → ObjectMeta
default_atespace m = if m.atespace == "" then record m { atespace = "default" } else m

abbrev pub status_of : Option TaskStatus → TaskStatus
status_of none = no_status
status_of (some s) = s

abbrev pub default_phase : TaskStatus → TaskStatus
default_phase s = if s.phase == "" then record s { phase = "Pending" } else s

-- atespace == "" || atespace == "*" || t.Metadata.Atespace == atespace
abbrev pub in_scope : String → Option ObjectMeta → Bool
in_scope atespace m = atespace == "" || (atespace == "*" || (meta_of m).atespace == atespace)

-- Go's `+` on int64
unfoldable pub add64 : ℤ → ℤ → ℤ
add64 (pos a) (pos b) = if ltb (a + b) (2 ^ 63) then pos (a + b) else negsuc (2 ^ 64 - suc (a + b))
add64 (pos a) (negsuc b) = if ltb b a then pos (a - suc b) else negsuc (b - a)
add64 (negsuc a) (pos b) = if ltb a b then pos (b - suc a) else negsuc (a - b)
add64 (negsuc a) (negsuc b) =
    if ltb (suc (a + b)) (2 ^ 63) then negsuc (suc (a + b)) else pos (2 ^ 64 - suc (suc (a + b)))

abbrev pub at_least : ℤ → ℕ → Bool
at_least (pos a) n = leb n a
at_least (negsuc a) n = false

-- limit <= 0 || end > int64(len(result))
abbrev pub to_the_end : ℤ → ℤ → ℕ → Bool
to_the_end (pos zero) e n = true
to_the_end (negsuc l) e n = true
to_the_end (pos (suc l)) (pos e) n = ltb n e
to_the_end (pos (suc l)) (negsuc e) n = false

module _ {A : Type 0} where
  abbrev pub drop : ℕ → List A → List A
  drop zero xs = xs
  drop (suc n) [] = []
  drop (suc n) (x ∷ xs) = drop n xs

  abbrev pub take : ℕ → List A → List A
  take zero xs = []
  take (suc n) [] = []
  take (suc n) (x ∷ xs) = x ∷ take n xs

  -- result[from:to], for `to` within the length; `none` is a panic
  unfoldable pub slice : ℤ → ℤ → List A → Option (List A)
  slice (pos a) (pos b) xs = if leb a b then some (drop a (take b xs)) else none
  slice _ _ xs = none

  unfoldable pub page : (limit offset : ℤ) → List A → Option (List A)
  unfolding add64 slice
  page limit offset xs =
      if at_least offset (length xs)
      then some []
      else slice offset
          (if to_the_end limit (add64 offset limit) (length xs)
            then pos (length xs)
            else add64 offset limit)
          xs

module _ {R : Type 0} where
  -- select { case ch <- cp: default: }
  abbrev pub offer : Sent R → Watcher R → Watcher R
  offer m ch =
      if ltb (length ch.buffer) 10 then record ch { buffer = Lists.◌++◌ ch.buffer (m ∷ []) } else ch

  abbrev pub offer_all : Sent R → List (Watcher R) → List (Watcher R)
  offer_all m [] = []
  offer_all m (ch ∷ chs) = offer m ch ∷ offer_all m chs

  -- The stored message is written in place: a message that is it reads as the new one.
  abbrev pub rewritten : Task R → Sent R → Sent R
  rewritten t m = if m.shared then record m { task = t } else m

  -- The stored message is replaced or deleted: a message that was it keeps its value from then on.
  abbrev pub detached : Sent R → Sent R
  detached m = record m { shared = false }

  abbrev pub change_all : (Sent R → Sent R) → List (Watcher R) → List (Watcher R)
  change_all f [] = []
  change_all f (ch ∷ chs) = record ch { buffer = map f ch.buffer } ∷ change_all f chs

  abbrev pub change_at :
      (Sent R → Sent R) → String → Map (List (Watcher R)) → Map (List (Watcher R))
  change_at f key m = elim (lookup key m) [ none ↦ m | some chs ↦ insert key (change_all f chs) m ]

  abbrev pub completed : Task R → Task R
  completed t = record t {
    metadata = some (default_atespace (meta_of t.metadata));
    status = some (default_phase (status_of t.status));
  }

  unfoldable pub scoped_tasks : String → Map (Task R) → List (Task R)
  scoped_tasks atespace [] = []
  scoped_tasks atespace ((k, t) ∷ m) =
      let rest = scoped_tasks atespace m in if in_scope atespace t.metadata then t ∷ rest else rest

  -- The first channel that is the watcher's own is taken out.
  unfoldable pub remove_watcher : ℕ → List (Watcher R) → List (Watcher R)
  remove_watcher i [] = []
  remove_watcher i (ch ∷ chs) =
      let rest = remove_watcher i chs in if nat_eq ch.ident i then chs else ch ∷ rest

module _ {A : Type 0} where
  -- `SaveModel` and `SaveWorkspace`, on the map of the kind: nil metadata is a panic.
  unfoldable pub save_resource :
      Resource A → Option ObjectMeta → Exec (Map (Resource A)) StoreError (Resource A)
  unfolding task_key
  save_resource x none m = (err panic, m)
  save_resource x (some meta) m =
      let meta' = default_atespace meta in
      let x' = record x { metadata = some meta' } in
      if meta.name == ""
      then (err name_required, m)
      else (ok x', insert (task_key meta'.atespace meta'.name) x' m)

  unfoldable pub get_resource :
      (atespace name : String) → Map (Resource A) → Result StoreError (Resource A)
  unfolding task_key
  get_resource atespace name m = elim (lookup (task_key atespace name) m) [
    | none ↦ err not_found
    | some x ↦ ok x
  ]

  unfoldable pub list_resources : String → Map (Resource A) → List (Resource A)
  list_resources atespace [] = []
  list_resources atespace ((k, x) ∷ m) =
      let rest = list_resources atespace m in
      if in_scope atespace x.metadata then x ∷ rest else rest

module _ {R S M : Type 0} where
  abbrev pub new_store : MemoryStore R S M
  new_store = record {
    tasks = [];
    models = [];
    workspaces = [];
    events = [];
    watchers = [];
    made = 0;
  }

  -- if chs, ok := s.watchers[key]; ok { … }
  unfoldable pub notify : String → Sent R → MemoryStore R S M → MemoryStore R S M
  notify key m s = elim (lookup key s.watchers) [
    | none ↦ s
    | some chs ↦ record s { watchers = insert key (offer_all m chs) s.watchers }
  ]

  -- A task is put under its key, for the message that was there or in its place.
  abbrev pub put_task : (Sent R → Sent R) → String → Task R → MemoryStore R S M → MemoryStore R S M
  put_task f key t s = record s {
    tasks = insert key t s.tasks;
    watchers = change_at f key s.watchers;
  }

  -- select { case s.events <- event: default: }: a full channel drops the event.
  unfoldable pub publish : TaskEvent → MemoryStore R S M → MemoryStore R S M
  publish e s =
      if ltb (length s.events) 1000 then record s { events = Lists.◌++◌ s.events (e ∷ []) } else s

  -- The caller's task gets the defaults too, and is the result.
  unfoldable pub save_task : String → Task R → Exec (MemoryStore R S M) StoreError (Task R)
  unfolding notify publish task_key
  save_task now t s =
      let m = default_atespace (meta_of t.metadata) in
      let t' = completed t in
      let key = task_key m.atespace m.name in
      let event : TaskEvent = record {
        id = now;
        atespace = m.atespace;
        name = m.name;
        action = "reconcile";
      } in
      if (meta_of t.metadata).name == "" then (err name_required, s) else (
        ok t',
        publish event
            (notify key (record { task = t'; shared = true }) (put_task detached key t' s)),
      )

  unfoldable pub get_task :
      (atespace name : String) → MemoryStore R S M → Result StoreError (Task R)
  unfolding task_key
  get_task atespace name s = elim (lookup (task_key atespace name) s.tasks) [
    | none ↦ err not_found
    | some t ↦ ok t
  ]

  unfoldable pub list_tasks :
      String → (limit offset : ℤ) → MemoryStore R S M → Result StoreError (List (Task R))
  unfolding scoped_tasks page
  list_tasks atespace limit offset s = elim (page limit offset (scoped_tasks atespace s.tasks)) [
    | none ↦ err panic
    | some ts ↦ ok ts
  ]

  unfoldable pub update_task_status :
      (atespace name : String) → Option TaskStatus → Exec (MemoryStore R S M) StoreError (Unit {0})
  unfolding notify task_key
  update_task_status atespace name status s =
      let key = task_key atespace name in
      elim (lookup key s.tasks) [
        | none ↦ (err not_found, s)
        | some t ↦
            let t' = record t { status = status } in
            (
              ok tt,
              notify key (record { task = t'; shared = false }) (put_task (rewritten t') key t' s),
            )
      ]

  unfoldable pub mark_task_deleting :
      String → (atespace name : String) → Exec (MemoryStore R S M) StoreError (Unit {0})
  unfolding notify publish task_key
  mark_task_deleting now atespace name s =
      let key = task_key atespace name in
      let event : TaskEvent = record {
        id = now;
        atespace = atespace;
        name = name;
        action = "delete";
      } in
      elim (lookup key s.tasks) [
        | none ↦ (err not_found, s)
        | some t ↦
            let t' = record t {
              status = some (record (status_of t.status) { phase = "Terminating" });
            } in
            (
              ok tt,
              publish event (
                  notify key (record { task = t'; shared = false })
                    (put_task (rewritten t') key t' s)),
            )
      ]

  unfoldable pub delete_task : (atespace name : String) → MemoryStore R S M → MemoryStore R S M
  unfolding task_key
  delete_task atespace name s = record s {
    tasks = delete (task_key atespace name) s.tasks;
    watchers = change_at detached (task_key atespace name) s.watchers;
  }

  unfoldable pub save_model : Resource M → Exec (MemoryStore R S M) StoreError (Resource M)
  unfolding save_resource
  save_model x s = let (r, m) = save_resource x x.metadata s.models in (r, record s { models = m })

  unfoldable pub get_model :
      (atespace name : String) → MemoryStore R S M → Result StoreError (Resource M)
  unfolding get_resource
  get_model atespace name s = get_resource atespace name s.models

  unfoldable pub list_models : String → MemoryStore R S M → List (Resource M)
  unfolding list_resources
  list_models atespace s = list_resources atespace s.models

  unfoldable pub delete_model : (atespace name : String) → MemoryStore R S M → MemoryStore R S M
  unfolding task_key
  delete_model atespace name s = record s { models = delete (task_key atespace name) s.models }

  unfoldable pub save_workspace : Resource S → Exec (MemoryStore R S M) StoreError (Resource S)
  unfolding save_resource
  save_workspace x s =
      let (r, m) = save_resource x x.metadata s.workspaces in (r, record s { workspaces = m })

  unfoldable pub get_workspace :
      (atespace name : String) → MemoryStore R S M → Result StoreError (Resource S)
  unfolding get_resource
  get_workspace atespace name s = get_resource atespace name s.workspaces

  unfoldable pub list_workspaces : String → MemoryStore R S M → List (Resource S)
  unfolding list_resources
  list_workspaces atespace s = list_resources atespace s.workspaces

  unfoldable pub delete_workspace : (atespace name : String) → MemoryStore R S M → MemoryStore R S M
  unfolding task_key
  delete_workspace atespace name s = record s {
    workspaces = delete (task_key atespace name) s.workspaces;
  }

  -- `Next` of a subscription: `none` is a wait.
  unfoldable pub next_event : MemoryStore R S M → Option TaskEvent × MemoryStore R S M
  next_event s = take_first s.events
    where
      take_first : List TaskEvent → Option TaskEvent × MemoryStore R S M
      take_first [] = (none, s)
      take_first (e ∷ es) = (some e, record s { events = es })

  unfoldable pub watchers_of : String → MemoryStore R S M → List (Watcher R)
  watchers_of key s = elim (lookup key s.watchers) [ none ↦ [] | some chs ↦ chs ]

  unfoldable pub watch_task : (atespace name : String) → MemoryStore R S M → ℕ × MemoryStore R S M
  unfolding task_key watchers_of
  watch_task atespace name s =
      let key = task_key atespace name in
      let ch : Watcher R = record { ident = s.made; buffer = [] } in
      (
        s.made,
        record s {
          made = suc s.made;
          watchers = insert key (Lists.◌++◌ (watchers_of key s) (ch ∷ [])) s.watchers;
        },
      )

  -- The closer of `WatchTask`.
  unfoldable pub close_watch : (atespace name : String) → ℕ → MemoryStore R S M → MemoryStore R S M
  unfolding task_key watchers_of remove_watcher
  close_watch atespace name i s =
      let key = task_key atespace name in
      elim (lookup key s.watchers) [
        | none ↦ s
        | some chs ↦ record s { watchers = insert key (remove_watcher i chs) s.watchers }
      ]
