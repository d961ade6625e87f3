-- ===== src/Graph/Engine/Step.antt =====
-- `Tick` and `Pause` of engine/ax/internal/taskgraph/engine.go.
use Prim.Native.String.{◌++◌}
use task_a.Prelude.{
  String, Bool, true, false, not, ◌&&◌, List, [], ◌∷◌, Map, lookup, insert, has_key, keys, Option,
  none, some, Result, ok, err, Exec, if◌then◌else◌, ◌==◌, nat_eq, is_zero, length,
}
use task_a.Graph.Model.{
  Node, RunResult, Phase, Attempt, State, starting, running, stopping, validating,
  validation_stopping, succeeded, failed, suspended,
}
use task_a.Graph.Progress.{files_of, insert_all}
use task_a.Graph.Engine.Defs.{
  Launch, Fault, outside, missing_output, candidate_mismatch, outputs_differ, validator_mismatch,
  inputs_unavailable, nil_pointer, Backend, Digests, is_settled,
}

module _ {W A B : Type 0} where
  -- One call of the world, and the rest of the code where it returned no error.
  abbrev pub call : Exec W String A → (A → Exec W Fault B) → Exec W Fault B
  call m k w = let (r, w') = m w in elim r [ ok a ↦ k a w' | err e ↦ (err (outside e), w') ]

-- a.Candidate.ExitCode != 0 || a.Candidate.Error != "", negated
unfoldable pub is_clean : RunResult → Bool
is_clean r = is_zero r.exit_code && r.error == ""

-- for _, f := range n.Outputs { if _, ok := a.Candidate.Files[f]; !ok { … } }
unfoldable pub first_missing : List String → Map String → Option String
first_missing [] files = none
first_missing (f ∷ fs) files =
    let rest = first_missing fs files in if has_key f files then rest else some f

-- The attempt that is to be saved, or `none` where the source continues with the next task.
abbrev pub Advance : Type 0 → Type 0
Advance W = Exec W Fault (Option Attempt)

module _ {W : Type 0} (b : Backend W) (n : Node) (files : Map String) where
  unfoldable pub from_starting : Attempt → Advance W
  from_starting a =
      call
        (b.ensure (record {
          name = a.name;
          image = n.image;
          command = n.command;
          files = files;
          outputs = n.outputs;
        }))
        λ _. call (b.start a.name) λ _ w. (ok (some (record a { phase = running })), w)

  -- The candidate is the result of the attempt's own actor.
  unfoldable pub take_candidate : Attempt → Option RunResult → Result Fault (Option Attempt)
  take_candidate a none = ok none
  take_candidate a (some c) =
      if not (c.task == a.name)
      then err candidate_mismatch
      else ok (some (record a { candidate = some c; phase = stopping }))

  unfoldable pub from_running : Attempt → Advance W
  unfolding take_candidate
  from_running a = call (b.result a.name) λ r w. (take_candidate a r, w)

  -- The checks of the candidate once its actor has stopped.
  unfoldable pub judge : Attempt → Option RunResult → Result Fault (Option Attempt)
  unfolding is_clean first_missing
  judge a none = err nil_pointer
  judge a (some c) =
      if not (is_clean c)
      then ok (some (record a { phase = failed }))
      else if not (nat_eq (length c.files) (length n.outputs))
      then err outputs_differ
      else elim (first_missing n.outputs c.files) [
        | some f ↦ err (missing_output f)
        | none ↦ ok (some (record a { validator_name = a.name ++ "-v"; phase = validating }))
      ]

  unfoldable pub from_stopping : Attempt → Advance W
  unfolding judge
  from_stopping a =
      call (b.suspend a.name)
        λ stopped w. if stopped then (judge a a.candidate, w) else (ok none, w)

  -- files, then the candidate's files, then the validator's
  unfoldable pub validator_files : RunResult → Map String
  validator_files c = insert_all n.validator.files (insert_all c.files (insert_all files []))

  -- The verdict is the result of the attempt's own validator.
  unfoldable pub take_verdict : Attempt → Option RunResult → Result Fault (Option Attempt)
  take_verdict a none = ok none
  take_verdict a (some v) =
      if not (v.task == a.validator_name)
      then err validator_mismatch
      else ok (some (record a { validation = some v; phase = validation_stopping }))

  abbrev pub validator_launch : Attempt → RunResult → Launch
  validator_launch a c = record {
    name = a.validator_name;
    image = n.validator.image;
    command = n.validator.command;
    files = validator_files c;
    outputs = [];
  }

  unfoldable pub run_validator : Attempt → RunResult → Advance W
  unfolding take_verdict
  run_validator a c = call (b.ensure (validator_launch a c)) λ _.
      call (b.start a.validator_name)
        λ _. call (b.result a.validator_name) λ r w. (take_verdict a r, w)

  unfoldable pub from_validating : Attempt → Advance W
  unfolding run_validator
  from_validating a w = elim a.candidate [
    | none ↦ (err nil_pointer, w)
    | some c ↦ run_validator a c w
  ]

  unfoldable pub conclude :
      Attempt → Option RunResult → Option RunResult → Result Fault (Option Attempt)
  unfolding is_clean
  conclude a c none = err nil_pointer
  conclude a c (some v) =
      if is_clean v
      then elim c [
        | none ↦ err nil_pointer
        | some r ↦ ok (some (record a { outputs = r.files; phase = succeeded }))
      ]
      else ok (some (record a { phase = failed }))

  unfoldable pub from_validation_stopping : Attempt → Advance W
  unfolding conclude
  from_validation_stopping a =
      call (b.suspend a.validator_name)
        λ stopped w. if stopped then (conclude a a.candidate a.validation, w) else (ok none, w)

  -- switch a.Phase
  unfoldable pub advance : Phase → Attempt → Advance W
  unfolding from_starting from_running from_stopping from_validating from_validation_stopping
  advance starting a = from_starting a
  advance running a = from_running a
  advance stopping a = from_stopping a
  advance validating a = from_validating a
  advance validation_stopping a = from_validation_stopping a
  advance _ a = λ w. (ok (some a), w)

abbrev pub with_attempt : String → Attempt → State → State
with_attempt id a s = record s { attempts = insert id a s.attempts }

module _ {W : Type 0} (b : Backend W) (d : Digests) (scope : String) where
  -- e.Save(ctx, s), its error passed on
  unfoldable pub save_state : State → W → Result Fault (Unit {0}) × State × W
  save_state s w =
      let (r, w') = b.save s w in
      elim r [ ok _ ↦ (ok tt, s, w') | err e ↦ (err (outside e), s, w') ]

  -- The switch, and the `Save` behind it.
  unfoldable pub drive :
      Node → Map String → Attempt → State → W → Result Fault (Unit {0}) × State × W
  unfolding save_state
  drive n files a s w =
      let (r, w') = advance b n files a.phase a w in
      elim r [
        | err e ↦ (err e, s, w')
        | ok none ↦ (ok tt, s, w')
        | ok (some a') ↦ save_state (with_attempt n.id a' s) w'
      ]

  abbrev pub new_attempt : State → Node → String → Attempt
  new_attempt s n fingerprint = record {
    name = d.name_of scope s.plan.id s.plan.revision n.id fingerprint;
    fingerprint = fingerprint;
    phase = starting;
    candidate = none;
    validator_name = "";
    validation = none;
    outputs = [];
    reused = false;
  }

  -- The identity is saved before anything is created outside.
  unfoldable pub begin : Node → Map String → State → W → Result Fault (Unit {0}) × State × W
  unfolding drive
  begin n files s w =
      let a = new_attempt s n (d.of_work n files) in
      let (r, s', w') = save_state (with_attempt n.id a s) w in
      elim r [ err e ↦ (err e, s', w') | ok _ ↦ drive n files a s' w' ]

  -- An equal, earlier success is taken over, or a new attempt begins.
  unfoldable pub reuse_or_begin :
      Option Attempt → Node → Map String → State → W → Result Fault (Unit {0}) × State × W
  unfolding begin
  reuse_or_begin none n files s w = begin n files s w
  reuse_or_begin (some old) n files s w =
      if old.fingerprint == d.of_work n files
      then save_state (with_attempt n.id (record old { reused = true }) s) w
      else begin n files s w

  -- The body of the loop of `Tick`.
  unfoldable pub visit : Node → State → W → Result Fault (Unit {0}) × State × W
  unfolding reuse_or_begin
  visit n s w = elim (files_of s n) [
    | none ↦ (ok tt, s, w)
    | some files ↦ elim (lookup n.id s.attempts) [
      | none ↦ reuse_or_begin (lookup n.id s.previous) n files s w
      | some a ↦ drive n files a s w
    ]
  ]

  unfoldable pub visit_all : List Node → State → W → Result Fault (Unit {0}) × State × W
  visit_all [] s w = (ok tt, s, w)
  visit_all (n ∷ ns) s w =
      let (r, s', w') = visit n s w in
      let rest = visit_all ns s' w' in elim r [ err e ↦ (err e, s', w') | ok _ ↦ rest ]

  -- In `Pause`: a starting attempt is created outside, so that there is an actor to suspend.
  unfoldable pub ensure_starting :
      List Node → String → Attempt → State → W → Result Fault (Unit {0}) × W
  ensure_starting [] id a s w = (ok tt, w)
  ensure_starting (n ∷ ns) id a s w =
      let rest = ensure_starting ns id a s in
      if not (n.id == id) then rest w else elim (files_of s n) [
        | none ↦ (err inputs_unavailable, w)
        | some files ↦
            call
              (b.ensure (record {
                name = a.name;
                image = n.image;
                command = n.command;
                files = files;
                outputs = n.outputs;
              }))
              (λ _. rest) w
      ]

  abbrev pub actor_of : Attempt → String
  actor_of a = if not (a.validator_name == "") then a.validator_name else a.name

  unfoldable pub suspend_attempt :
      String → Attempt → State → W → Result Fault (Unit {0}) × State × W
  unfolding save_state
  suspend_attempt id a s w =
      let (r, w') = b.suspend (actor_of a) w in
      elim r [
        | err e ↦ (err (outside e), s, w')
        | ok stopped ↦
            save_state (if stopped then with_attempt id (record a { phase = suspended }) s else s)
              w'
      ]

  abbrev pub is_starting : Phase → Bool
  is_starting starting = true
  is_starting _ = false

  unfoldable pub pause_one : String → Attempt → State → W → Result Fault (Unit {0}) × State × W
  unfolding ensure_starting suspend_attempt is_settled
  pause_one id a s w =
      let (r, w') =
        if is_starting a.phase then ensure_starting s.plan.tasks id a s w else (ok tt, w) in
      elim r [
        | err e ↦ (err e, s, w')
        | ok _ ↦ if is_settled a.phase then (ok tt, s, w') else suspend_attempt id a s w'
      ]

  -- for id, a := range s.Attempts; the loop changes the attempts and not their ids.
  unfoldable pub pause_all : List String → State → W → Result Fault (Unit {0}) × State × W
  unfolding pause_one
  pause_all [] s w = (ok tt, s, w)
  pause_all (id ∷ ids) s w = elim (lookup id s.attempts) [
    | none ↦ pause_all ids s w
    | some a ↦
        let (r, s', w') = pause_one id a s w in
        let rest = pause_all ids s' w' in elim r [ err e ↦ (err e, s', w') | ok _ ↦ rest ]
  ]

  unfoldable pub pause : State → W → Result Fault (Unit {0}) × State × W
  unfolding pause_all
  pause s w =
      let (r, s', w') = save_state (record s { paused = true }) w in
      elim r [ err e ↦ (err e, s', w') | ok _ ↦ pause_all (keys s'.attempts) s' w' ]

  unfoldable pub tick : State → W → Result Fault (Unit {0}) × State × W
  unfolding visit_all pause
  tick s w = if s.paused then pause s w else visit_all s.plan.tasks s w
