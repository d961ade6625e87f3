-- ===== src/Graph/Engine/Calls.antt =====
-- What one step of the switch of `Tick` (engine/ax/internal/taskgraph/engine.go) does to the world.
use task_a.Prelude.{
  String, Bool, true, false, Map, Option, none, some, Result, ok, err, Exec, if◌then◌else◌, ◌≡◌,
  refl, sym, subst,
}
use task_a.Graph.Model.{
  Node, Attempt, Phase, RunResult, starting, running, stopping, validating, validation_stopping,
  succeeded, failed, suspended,
}
use task_a.Graph.Engine.Defs.{Launch, Fault, outside, nil_pointer, Backend, Digests}
use task_a.Graph.Engine.Step.{
  call, Advance, advance, from_starting, from_running, take_candidate, judge, from_stopping,
  take_verdict, validator_launch, run_validator, from_validating, conclude,
  from_validation_stopping,
}
use task_a.Graph.Engine.Keep.{Respects}

module _ {W A B : Type 0} (Q : W → Type 0) (m : Exec W String A) (k : A → Exec W Fault B) where
  -- What a call keeps, and the code behind it, the two keep.
  call_keeps :
      (w : W)
      → ((v : W) → Q v → Q (m v).1)
      → ((a : A) (v : W) → Q v → Q (k a v).1)
      → Q w
      → Q (call m k w).1
  call_keeps w f g q = elim (m w).0 as (λ r. Q (answer r).1) [
    | ok a ↦ g a (m w).1 (f w q)
    | err e ↦ f w q
  ]
    where
      answer : Result String A → Result Fault B × W
      answer r = elim r [ ok a ↦ k a (m w).1 | err e ↦ (err (outside e), (m w).1) ]

module _ {W : Type 0} (b : Backend W) (d : Digests) (Q : W → Type 0) (v : Respects b d Q) (n : Node)
    (files : Map String) (a : Attempt) where
  when_stopped_keeps :
      (r : Result Fault (Option Attempt)) (stopped : Bool) (w : W)
      → Q w
      → Q
          (let x : Result Fault (Option Attempt) × W = if stopped then (r, w) else (ok none, w) in
            x).1
  when_stopped_keeps r true w q = q
  when_stopped_keeps r false w q = q

  run_validator_keeps : (c : RunResult) (w : W) → Q w → Q (run_validator b n files a c w).1
  unfolding run_validator
  run_validator_keeps c w q =
      call_keeps Q (b.ensure (validator_launch b n files a c)) (λ _. starts) w
        (v.ensure_keeps (validator_launch b n files a c))
        (λ _ w₁ q₁.
          call_keeps Q (b.start a.validator_name) (λ _. asks) w₁ (v.start_keeps a.validator_name)
            (λ _ w₂ q₂.
              call_keeps Q (b.result a.validator_name) (λ r w'. (take_verdict b n files a r, w')) w₂
                (v.result_keeps a.validator_name) (λ r w₃ q₃. q₃) q₂)
            q₁)
        q
    where
      asks : Advance W
      asks = call (b.result a.validator_name) (λ r w'. (take_verdict b n files a r, w'))

      starts : Advance W
      starts = call (b.start a.validator_name) (λ _. asks)

  validating_keeps : (w : W) → Q w → Q (from_validating b n files a w).1
  unfolding from_validating
  validating_keeps w q = elim a.candidate as (λ c. Q (answer c).1) [
    | none ↦ q
    | some c ↦ run_validator_keeps c w q
  ]
    where
      answer : Option RunResult → Result Fault (Option Attempt) × W
      answer r = elim r [ none ↦ (err nil_pointer, w) | some c ↦ run_validator b n files a c w ]

  pub advance_keeps : (p : Phase) (w : W) → Q w → Q (advance b n files p a w).1
  unfolding advance from_starting from_running from_stopping from_validation_stopping
  advance_keeps starting w q =
      call_keeps Q (b.ensure launch) (λ _. starts) w (v.ensure_keeps launch)
        (λ _ w₁ q₁.
          call_keeps Q (b.start a.name) (λ _ w'. (ok (some (record a { phase = running })), w')) w₁
            (v.start_keeps a.name) (λ _ w₂ q₂. q₂) q₁)
        q
    where
      launch : Launch
      launch = record {
        name = a.name;
        image = n.image;
        command = n.command;
        files = files;
        outputs = n.outputs;
      }

      starts : Advance W
      starts = call (b.start a.name) (λ _ w'. (ok (some (record a { phase = running })), w'))
  advance_keeps running w q =
      call_keeps Q (b.result a.name) (λ r w'. (take_candidate b n files a r, w')) w
        (v.result_keeps a.name) (λ r w₁ q₁. q₁) q
  advance_keeps stopping w q =
      call_keeps Q (b.suspend a.name)
        (λ stopped w'. if stopped then (judge b n files a a.candidate, w') else (ok none, w')) w
        (v.suspend_keeps a.name) (when_stopped_keeps (judge b n files a a.candidate)) q
  advance_keeps validating w q = validating_keeps w q
  advance_keeps validation_stopping w q =
      call_keeps Q (b.suspend a.validator_name)
        (λ stopped w'.
          if stopped then (conclude b n files a a.candidate a.validation, w') else (ok none, w'))
        w (v.suspend_keeps a.validator_name)
        (when_stopped_keeps (conclude b n files a a.candidate a.validation)) q
  advance_keeps succeeded w q = q
  advance_keeps failed w q = q
  advance_keeps suspended w q = q

-- A success is not touched again.
pub advance-succeeded :
    {W : Type 0} (b : Backend W) (n : Node) (files : Map String) (a : Attempt) (w : W) (p : Phase)
    → p ≡ succeeded
    → advance b n files p a w ≡ (ok (some a), w)
unfolding advance
advance-succeeded b n files a w p e =
    subst (λ q. advance b n files q a w ≡ (ok (some a), w)) (sym e) refl
