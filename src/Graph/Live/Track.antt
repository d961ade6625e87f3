-- ===== src/Graph/Live/Track.antt =====
-- One step of the switch of `Tick` (engine/ax/internal/taskgraph/engine.go) in a world whose calls
-- succeed and whose actors answer.
use Prim.Native.String.{◌++◌}
use task_a.Prelude.{
  if◌then◌else◌, String, ℕ, ◌≤◌, ◌-◌, true, List, [], ◌∷◌, Map, has_key, Option, none, some, Result,
  ok, err, Exec, nat_eq, length, ◌≡◌, refl, sym, ap, ◌∙◌, All, arith, eq_refl, subst,
}
use task_a.Graph.Model.{
  Node, RunResult, Phase, Attempt, State, starting, running, stopping, validating,
  validation_stopping, succeeded, failed, suspended,
}
use task_a.Graph.Engine.Defs.{Launch, Fault, outside, nil_pointer, Backend}
use task_a.Graph.Engine.Step.{
  call, is_clean, first_missing, from_starting, take_candidate, from_running, judge, from_stopping,
  take_verdict, validator_launch, run_validator, from_validating, conclude,
  from_validation_stopping, advance,
}

-- Every call of the world succeeds, an actor stops when it is asked to, and every actor has left a
-- clean result of its own.
pub record IsPrompt {W : Type 0} (b : Backend W) (answer : String → RunResult) : Type 0 where
  pub ensures : (l : Launch) (w : W) → (b.ensure l w).0 ≡ ok tt
  pub starts : (name : String) (w : W) → (b.start name w).0 ≡ ok tt
  pub answers : (name : String) (w : W) → (b.result name w).0 ≡ ok (some (answer name))
  pub stops : (name : String) (w : W) → (b.suspend name w).0 ≡ ok true
  pub saves : (s : State) (w : W) → (b.save s w).0 ≡ ok tt
  pub own : (name : String) → (answer name).task ≡ name
  pub clean : (name : String) → is_clean (answer name) ≡ true

-- The files have these names, and no other.
abbrev pub Covers : List String → Map String → Type 0
Covers outs files = All (λ f. has_key f files ≡ true) outs

abbrev pub Delivers : List String → RunResult → Type 0
Delivers outs r = (length r.files ≡ length outs) × Covers outs r.files

-- The steps that are left of an attempt in this phase.
abbrev pub rank : Phase → ℕ
rank starting = 5
rank running = 4
rank stopping = 3
rank validating = 2
rank validation_stopping = 1
rank _ = 0

abbrev pub rank_of : Option Attempt → ℕ
rank_of none = 6
rank_of (some a) = rank a.phase

module _ (answer : String → RunResult) (outs : List String) where
  -- An attempt that goes well.
  abbrev pub OnTrack : Attempt → Phase → Type 0
  OnTrack a starting = Delivers outs (answer a.name)
  OnTrack a running = Delivers outs (answer a.name)
  OnTrack a stopping = Delivers outs (answer a.name) × (a.candidate ≡ some (answer a.name))
  OnTrack a validating = Delivers outs (answer a.name) × (a.candidate ≡ some (answer a.name))
  OnTrack a validation_stopping =
      Delivers outs (answer a.name)
      × (a.candidate ≡ some (answer a.name))
      × (a.validation ≡ some (answer a.validator_name))
  OnTrack a succeeded = Covers outs a.outputs
  OnTrack a failed = ⊥
  OnTrack a suspended = ⊥

  pub record Moves (a : Attempt) (p : Phase) (r : Result Fault (Option Attempt)) : Type 0 where
    pub next : Attempt
    pub answered : r ≡ ok (some next)
    pub on_track : OnTrack next next.phase
    pub lower : rank next.phase ≤ rank p - 1
    pub final : p ≡ succeeded → next ≡ a

first_missing-Covers :
    (outs : List String) (files : Map String) → Covers outs files → first_missing outs files ≡ none
unfolding first_missing
first_missing-Covers [] files h = refl
first_missing-Covers (f ∷ fs) files h = rw (h.0, first_missing-Covers fs files h.1) refl

module _ {W A B : Type 0} (m : Exec W String A) (k : A → Exec W Fault B) where
  -- A call that succeeds goes on with its answer.
  pub call-ok : (w : W) (a : A) → (m w).0 ≡ ok a → (call m k w).0 ≡ (k a (m w).1).0
  call-ok w a h = go (m w).0 h
    where
      outcome : Result String A → Result Fault B × W
      outcome r = elim r [ ok c ↦ k c (m w).1 | err e ↦ (err (outside e), (m w).1) ]

      go : (r : Result String A) → r ≡ ok a → (outcome r).0 ≡ (k a (m w).1).0
      go (ok c) e = let same : c ≡ a = cc in ap (λ x. (k x (m w).1).0) same
      go (err c) e = cc

module _ {W : Type 0} (b : Backend W) (answer : String → RunResult) (prompt : IsPrompt b answer)
    (n : Node) (files : Map String) (a : Attempt) where
  abbrev MovesFrom : Phase → Result Fault (Option Attempt) → Type 0
  MovesFrom = Moves answer n.outputs a

  starting-Moves :
      Delivers n.outputs (answer a.name)
      → (w : W) → MovesFrom starting (from_starting b n files a w).0
  unfolding from_starting
  starting-Moves h w = record {
    next = record a { phase = running };
    answered =
        call-ok (b.ensure _) (λ _. begins) w tt (prompt.ensures _ w)
        ∙ call-ok (b.start a.name) (λ _ w'. (ok (some (record a { phase = running })), w')) _ tt
            (prompt.starts _ _);
    on_track = h;
    lower = omega arith;
    final = λ e. cc;
  }
    where
      begins : Exec W Fault (Option Attempt)
      begins = call (b.start a.name) (λ _ w'. (ok (some (record a { phase = running })), w'))

  running-Moves :
      Delivers n.outputs (answer a.name)
      → (w : W) → MovesFrom running (from_running b n files a w).0
  unfolding from_running take_candidate
  running-Moves h w = record {
    next = record a { candidate = some (answer a.name); phase = stopping };
    answered =
        call-ok (b.result a.name) (λ r w'. (take_candidate b n files a r, w')) w _
          (prompt.answers a.name w)
        ∙ rw (prompt.own a.name, eq_refl) refl;
    on_track = (h, refl);
    lower = omega arith;
    final = λ e. cc;
  }

  stopping-Moves :
      Delivers n.outputs (answer a.name)
      → a.candidate ≡ some (answer a.name)
      → (w : W) → MovesFrom stopping (from_stopping b n files a w).0
  unfolding from_stopping judge
  stopping-Moves h c w = record {
    next = record a { validator_name = a.name ++ "-v"; phase = validating };
    answered =
        call-ok (b.suspend a.name)
          (λ stopped w'. if stopped then (judge b n files a a.candidate, w') else (ok none, w')) w
          true (prompt.stops a.name w)
        ∙ ap (judge b n files a) c
        ∙ judged;
    on_track = (h, c);
    lower = omega arith;
    final = λ e. cc;
  }
    where
      judged :
          judge b n files a (some (answer a.name))
          ≡ ok (some (record a { validator_name = a.name ++ "-v"; phase = validating }))
      judged =
          let count : nat_eq (length (answer a.name).files) (length n.outputs) ≡ true =
            ground (arith, h.0) in
          rw (prompt.clean a.name, count, first_missing-Covers n.outputs (answer a.name).files h.1)
            refl

  validating-Moves :
      Delivers n.outputs (answer a.name)
      → a.candidate ≡ some (answer a.name)
      → (w : W) → MovesFrom validating (from_validating b n files a w).0
  unfolding from_validating run_validator take_verdict
  validating-Moves h c w = record {
    next = record a { validation = some (answer a.validator_name); phase = validation_stopping };
    answered =
        ap (λ x. (branch x).0) c
        ∙ (call-ok (b.ensure (validator_launch b n files a (answer a.name))) (λ _. begins) w tt
              (prompt.ensures _ w)
            ∙ call-ok (b.start a.validator_name) (λ _. asks) _ tt (prompt.starts _ _)
            ∙ call-ok (b.result a.validator_name) (λ r w'. (take_verdict b n files a r, w')) _ _
                (prompt.answers _ _)
            ∙ rw (prompt.own a.validator_name, eq_refl) refl);
    on_track = (h, c, refl);
    lower = omega arith;
    final = λ e. cc;
  }
    where
      asks : Exec W Fault (Option Attempt)
      asks = call (b.result a.validator_name) (λ r w'. (take_verdict b n files a r, w'))

      begins : Exec W Fault (Option Attempt)
      begins = call (b.start a.validator_name) (λ _. asks)

      branch : Option RunResult → Result Fault (Option Attempt) × W
      branch o = elim o [ none ↦ (err nil_pointer, w) | some r ↦ run_validator b n files a r w ]

  validation_stopping-Moves :
      Delivers n.outputs (answer a.name)
      → a.candidate ≡ some (answer a.name)
      → a.validation ≡ some (answer a.validator_name)
      → (w : W) → MovesFrom validation_stopping (from_validation_stopping b n files a w).0
  unfolding from_validation_stopping conclude
  validation_stopping-Moves h c v w = record {
    next = record a { outputs = (answer a.name).files; phase = succeeded };
    answered =
        call-ok (b.suspend a.validator_name)
          (λ stopped w'.
            if stopped then (conclude b n files a a.candidate a.validation, w') else (ok none, w'))
          w true (prompt.stops a.validator_name w)
        ∙ ap (conclude b n files a a.candidate) v
        ∙ ap (λ x. conclude b n files a x (some (answer a.validator_name))) c
        ∙ rw (prompt.clean a.validator_name) refl;
    on_track = h.1;
    lower = omega arith;
    final = λ e. cc;
  }

  pub advance-Moves :
      (p : Phase)
      → a.phase ≡ p
      → OnTrack answer n.outputs a p
      → (w : W) → MovesFrom p (advance b n files p a w).0
  unfolding advance
  advance-Moves starting e h w = starting-Moves h w
  advance-Moves running e h w = running-Moves h w
  advance-Moves stopping e h w = stopping-Moves h.0 h.1 w
  advance-Moves validating e h w = validating-Moves h.0 h.1 w
  advance-Moves validation_stopping e h w = validation_stopping-Moves h.0 h.1 h.2 w
  advance-Moves succeeded e h w = record {
    next = a;
    answered = refl;
    on_track = subst (OnTrack answer n.outputs a) (sym e) h;
    lower = subst (λ p. rank p ≤ 0) (sym e) (omega arith);
    final = λ _. refl;
  }
  advance-Moves failed e h w = elim h [ ]
  advance-Moves suspended e h w = elim h [ ]
