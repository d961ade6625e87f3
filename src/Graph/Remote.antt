-- ===== src/Graph/Remote.antt =====
-- `AXBackend` (engine/ax/internal/taskgraph/backend.go), over the clients of AX, of Substrate and of
-- the guest in an actor, with `sortFiles` (sort.go). The requests carry the backend's atespace.
use Prim.Native.String.{◌++◌, compare}
use Prim.Native.Nat.{Ordering}
use task_a.Prelude.{
  String, ℕ, Bool, true, false, not, ◌&&◌, ◌||◌, List, [], ◌∷◌, Map, any, Option, none, some,
  Result, ok, err, Exec, if◌then◌else◌, ◌==◌, ltb,
}
use task_a.Graph.Model.{RunResult}
use task_a.Graph.Engine.Defs.{Launch}

-- The codes of gRPC that the backend tells apart.
pub data Failure : Type 0 where
  not_found unavailable : Failure
  other : String → Failure

pub data Trouble : Type 0 where
  pending : Trouble
  failure : Failure → Trouble
  workspace_collision task_collision task_failed : String → Trouble
  workspace_too_large actor_crashed credentials_required : Trouble
  snapshot_failed : String → Trouble

pub data ActorState : Type 0 where
  running resuming suspending suspended crashed unknown : ActorState

pub record Actor : Type 0 where
  pub state : ActorState
  pub assigned : Bool
  pub worker_pod_ip : String
  pub template : String

-- The specification of a task, less what the backend sets for every task alike.
pub record LaunchSpec : Type 0 where
  pub image : String
  pub command : List String
  pub workspace : String
  pub env : Map String

pub record Remote : Type 0 where
  pub spec : LaunchSpec
  pub phase : String
  pub reasons : List String
  pub worker_ip : String

pub record Golden : Type 0 where
  pub error_message : String
  pub tagged : Bool

-- The calls of the clients (`read_result` is the dial, the bounded read and the decoding), what `proto.Equal` answers, and the forms of YAML and JSON.
pub record Clients (W : Type 0) : Type 0 where
  pub get_workspace : String → Exec W Failure (Map String)
  pub update_workspace : String → Map String → Exec W Failure (Unit {0})
  pub get_task : String → Exec W Failure Remote
  pub create_task : String → LaunchSpec → Exec W Failure (Unit {0})
  pub resume_task : String → Exec W Failure (Unit {0})
  pub suspend_task : String → Exec W Failure (Unit {0})
  pub observe_actor : String → Exec W Failure Actor
  pub get_template : String → Exec W Failure Golden
  pub set_egress : String → (with_credentials : Bool) → Exec W Failure (Unit {0})
  pub write_activation : (target actor name : String) → Exec W Failure (Unit {0})
  pub read_result : (target actor : String) → Exec W Failure RunResult
  pub same_files : Map String → Map String → Bool
  pub same_spec : LaunchSpec → LaunchSpec → Bool
  pub encoded_size : String → Map String → ℕ
  pub encode : List String → String
  pub has_port : String → Bool

module _ {W A B : Type 0} where
  abbrev settle :
      (Failure → Exec W Trouble B)
      → (A → Exec W Trouble B)
      → Result Failure A × W
      → Result Trouble B × W
  settle on_error next (ok a, w) = next a w
  settle on_error next (err e, w) = on_error e w

  -- A call, with what follows an error and what follows a value.
  abbrev attempt :
      Exec W Failure A → (Failure → Exec W Trouble B) → (A → Exec W Trouble B) → Exec W Trouble B
  attempt m on_error next w = settle on_error next (m w)

  -- if err != nil { return err }
  abbrev checked : Exec W Failure A → (A → Exec W Trouble B) → Exec W Trouble B
  checked m next = attempt m (λ e w. (err (failure e), w)) next

-- sort.Slice by path
unfoldable pub insert_file : String → String → Map String → Map String
insert_file p c [] = (p, c) ∷ []
insert_file p c ((q, d) ∷ fs) = elim (compare p q) [
  | Ordering.gt ↦ (q, d) ∷ insert_file p c fs
  | _ ↦ (p, c) ∷ (q, d) ∷ fs
]

unfoldable pub sort_files : Map String → Map String
unfolding insert_file
sort_files [] = []
sort_files ((p, c) ∷ fs) = insert_file p c (sort_files fs)

abbrev starts_codex : List String → Bool
starts_codex [] = false
starts_codex (c ∷ cs) = c == "/usr/local/bin/task-agent-codex"

unfoldable pub is_codex : List String → Bool
is_codex [] = false
is_codex (c ∷ cs) =
    c == "/usr/local/bin/task-agent-codex"
    || (c == "/usr/local/bin/task-agent-exec" && starts_codex cs)

module _ {W : Type 0} (c : Clients W) (atespace router credential_uri : String) where
  abbrev done : Exec W Trouble (Unit {0})
  done w = (ok tt, w)

  abbrev refuse : {A : Type 0} → Trouble → Exec W Trouble A
  refuse e w = (err e, w)

  -- The environment names the outputs and the execution; a Codex command gets its egress.
  unfoldable pub spec_of : Launch → LaunchSpec
  spec_of l =
      let codex = starts_codex l.command in
      record {
        image = l.image;
        command = "/usr/local/bin/task-agent-exec" ∷ l.command;
        workspace = l.name ++ "-ws";
        env =
            ("TASK_AGENT_OUTPUTS", c.encode l.outputs)
            ∷ ("TASK_AGENT_EXECUTION_ID", l.name)
            ∷ (if codex
                then ("TASK_AGENT_NATIVE_EGRESS", "true")
                  ∷ ("CODEX_CA_CERTIFICATE", "/run/ate/trust-bundle.pem")
                  ∷ []
                else []);
      }

  -- The task is created once, and compared afterwards.
  unfoldable pub ensure_task : Launch → Exec W Trouble (Unit {0})
  unfolding spec_of
  ensure_task l =
      if ltb 32768 (c.encoded_size (l.name ++ "-ws") (sort_files l.files))
      then refuse workspace_too_large
      else attempt (c.get_task l.name)
          (λ e. elim e [
            | Failure.not_found ↦ checked (c.create_task l.name (spec_of l)) (λ _. done)
            | x ↦ refuse (failure x)
          ])
          (λ old.
            if not (c.same_spec old.spec (spec_of l)) then refuse (task_collision l.name) else done)

  unfoldable pub ensure : Launch → Exec W Trouble (Unit {0})
  unfolding ensure_task sort_files
  ensure l =
      let ws = l.name ++ "-ws" in
      attempt (c.get_workspace ws)
        (λ e. elim e [
          | Failure.not_found ↦
              checked (c.update_workspace ws (sort_files l.files)) (λ _. ensure_task l)
          | x ↦ refuse (failure x)
        ])
        (λ old.
          if not (c.same_files old (sort_files l.files))
          then refuse (workspace_collision ws)
          else ensure_task l)

  abbrev is_running : ActorState → Bool
  is_running running = true
  is_running _ = false

  unfoldable pub activate : String → Exec W Trouble (Unit {0})
  activate name = checked (c.observe_actor name) λ actor.
      if not (is_running actor.state)
      then refuse pending
      else if router == ""
      then checked (c.write_activation (actor.worker_pod_ip ++ ":80") "" name) (λ _. done)
      else checked (c.write_activation router (atespace ++ "/" ++ name) name) (λ _. done)

  -- The egress of the actor is set before it is resumed.
  unfoldable pub admit : String → Exec W Trouble (Unit {0})
  unfolding is_codex
  admit name = checked (c.get_task name) λ task.
      if is_codex task.spec.command && credential_uri == ""
      then refuse credentials_required
      else checked (c.set_egress name (is_codex task.spec.command))
          λ _. checked (c.resume_task name) (λ _. done)

  unfoldable pub start_from : String → Actor → ActorState → Exec W Trouble (Unit {0})
  unfolding activate admit
  start_from name actor running = activate name
  start_from name actor resuming = refuse pending
  start_from name actor suspending = refuse pending
  start_from name actor crashed = refuse actor_crashed
  start_from name actor _ = checked (c.get_template actor.template) λ golden.
      if not (golden.error_message == "")
      then refuse (snapshot_failed golden.error_message)
      else if not golden.tagged
      then refuse pending
      else admit name

  unfoldable pub start : String → Exec W Trouble (Unit {0})
  unfolding start_from
  start name =
      attempt (c.observe_actor name)
        (λ e. elim e [ Failure.not_found ↦ refuse pending | x ↦ refuse (failure x) ])
        (λ actor. start_from name actor actor.state)

  -- A result that is not there yet is `none`.
  unfoldable pub read : (target actor : String) → Exec W Trouble (Option RunResult)
  read target actor =
      attempt (c.read_result target actor)
        (λ e. elim e [
          | Failure.not_found ↦ λ w. (ok none, w)
          | unavailable ↦ λ w. (ok none, w)
          | other x ↦ refuse (failure (other x))
        ])
        (λ r w. (ok (some r), w))

  unfoldable pub fetch : String → Remote → Exec W Trouble (Option RunResult)
  unfolding activate read
  fetch name task w =
      let (r, w') = activate name w in
      elim r [
        | err e ↦ (err e, w')
        | ok _ ↦
            if not (router == "")
            then read router (atespace ++ "/" ++ name) w'
            else if task.worker_ip == ""
            then (ok none, w')
            else read
                (if c.has_port task.worker_ip then task.worker_ip else task.worker_ip ++ ":80") ""
                w'
      ]

  -- A task whose actor could not be resumed is started again; any other failed task is an error.
  unfoldable pub result : String → Exec W Trouble (Option RunResult)
  unfolding fetch start
  result name = checked (c.get_task name) λ task.
      if not (task.phase == "Failed")
      then fetch name task
      else if not (any (λ reason. reason == "ActorResumeFailed") task.reasons)
      then refuse (task_failed name)
      else checked (c.observe_actor name) λ actor.
        if is_running actor.state then fetch name task else λ w.
        let (r, w') = start name w in elim r [ err e ↦ (err e, w') | ok _ ↦ (ok none, w') ]

  -- An actor counts as stopped once it is suspended and has no worker.
  unfoldable pub suspend : String → Exec W Trouble Bool
  suspend name = checked (c.suspend_task name) λ _.
      checked (c.observe_actor name)
        λ actor w. (ok (elim actor.state [ suspended ↦ not actor.assigned | _ ↦ false ]), w)
