-- ===== src/Graph/Engine/Honest.antt =====
-- What an attempt of the engine has behind it in each phase, and lemmas on `advance`
-- (engine/ax/internal/taskgraph/engine.go).
use Prim.Native.String.{◌++◌}
use task_a.Prelude.{
  String, Bool, true, false, List, [], ◌∷◌, Map, has_key, Option, none, some, Result, ok, err, Exec,
  if◌then◌else◌, nat_eq, length, ◌≡◌, ◌≢◌, refl, sym, ap, ◌∙◌, All, arith, Bool-cases, Option-cases,
  String-cases, inl, inr, ◌⊎◌, subst,
}
use task_a.Graph.Model.{
  Node, RunResult, Phase, Attempt, starting, running, stopping, validating, validation_stopping,
  succeeded, failed, suspended,
}
use task_a.Graph.Engine.Defs.{Fault, outside, nil_pointer, Backend}
use task_a.Graph.Engine.Step.{
  call, is_clean, first_missing, from_starting, take_candidate, from_running, judge, from_stopping,
  take_verdict, validator_launch, run_validator, from_validating, conclude,
  from_validation_stopping, advance, Advance,
}

-- The actor of this result ran to its end without an error.
abbrev pub IsClean : RunResult → Type 0
IsClean r = is_clean r ≡ true

-- The attempt's own actor left a clean candidate with every declared output, and no other file.
pub record HasCandidate (outs : List String) (a : Attempt) : Type 0 where
  pub candidate : RunResult
  pub stored : a.candidate ≡ some candidate
  pub own : candidate.task ≡ a.name
  pub clean : IsClean candidate
  pub count : length candidate.files ≡ length outs
  pub covers : All (λ f. has_key f candidate.files ≡ true) outs

-- The attempt's own validator answered.
pub record HasVerdict (a : Attempt) : Type 0 where
  pub verdict : RunResult
  pub stored : a.validation ≡ some verdict
  pub own : verdict.task ≡ a.validator_name

pub record IsValidating (outs : List String) (a : Attempt) : Type 0 where
  pub named : a.validator_name ≡ a.name ++ "-v"
  pub ready : HasCandidate outs a

pub record IsAdopted (outs : List String) (a : Attempt) : Type 0 where
  pub validating : IsValidating outs a
  pub judged : HasVerdict a
  pub passed : IsClean judged.verdict
  pub adopted : a.outputs ≡ validating.ready.candidate.files

-- What an attempt in this phase has behind it.
abbrev pub Backing : List String → Attempt → Phase → Type 0
Backing outs a starting = a.validator_name ≡ ""
Backing outs a running = a.validator_name ≡ ""
Backing outs a stopping =
    (a.validator_name ≡ "") × ((c : RunResult) × (a.candidate ≡ some c) × (c.task ≡ a.name))
Backing outs a validating = IsValidating outs a
Backing outs a validation_stopping = IsValidating outs a × HasVerdict a
Backing outs a succeeded = IsAdopted outs a
Backing outs a failed = Unit
Backing outs a suspended = (a.validator_name ≡ "") ⊎ IsValidating outs a

abbrev pub IsHonest : List String → Attempt → Type 0
IsHonest outs a = Backing outs a a.phase

-- What `advance` may answer: an honest attempt under the same identity, or an error of the source.
abbrev pub Fine : List String → Attempt → Result Fault (Option Attempt) → Type 0
Fine outs a (ok none) = Unit
Fine outs a (ok (some a')) =
    IsHonest outs a' × (a'.name ≡ a.name) × (a'.fingerprint ≡ a.fingerprint)
Fine outs a (err e) = e ≢ nil_pointer

first_missing-none :
    (fs : List String) (files : Map String)
    → first_missing fs files ≡ none
    → All (λ f. has_key f files ≡ true) fs
unfolding first_missing
first_missing-none [] files h = tt
first_missing-none (f ∷ fs) files h = elim (Bool-cases (has_key f files)) [
  | inl e ↦ (e, first_missing-none fs files (rw e at h))
  | inr e ↦ cc (rw e at h)
]

module _ {W A B : Type 0} (P : Result Fault B → Type 0) (m : Exec W String A)
    (k : A → Exec W Fault B) where
  -- A call of the world fails with an error of the world, or the code goes on.
  pub call_ind :
      (w : W)
      → ((e : String) → P (err (outside e)))
      → ((a : A) (w' : W) → P (k a w').0)
      → P (call m k w).0
  call_ind w fails goes = elim (m w).0 as (λ r. P (answer r).0) [
    | ok a ↦ goes a (m w).1
    | err e ↦ fails e
  ]
    where
      answer : Result String A → Result Fault B × W
      answer r = elim r [ ok a ↦ k a (m w).1 | err e ↦ (err (outside e), (m w).1) ]

pub HasCandidate-update :
    {outs : List String} (a a' : Attempt)
    → a'.candidate ≡ a.candidate
    → a'.name ≡ a.name
    → HasCandidate outs a
    → HasCandidate outs a'
HasCandidate-update a a' c m h = record {
  candidate = h.candidate;
  stored = c ∙ h.stored;
  own = h.own ∙ sym m;
  clean = h.clean;
  count = h.count;
  covers = h.covers;
}

pub IsValidating-update :
    {outs : List String} (a a' : Attempt)
    → a'.candidate ≡ a.candidate
    → a'.name ≡ a.name
    → a'.validator_name ≡ a.validator_name
    → IsValidating outs a
    → IsValidating outs a'
IsValidating-update a a' c m v h = record {
  named = v ∙ h.named ∙ ap (λ x. x ++ "-v") (sym m);
  ready = HasCandidate-update a a' c m h.ready;
}

-- The flag `Reused` says nothing of what an attempt has behind it.
pub Backing-reused :
    (outs : List String) (a : Attempt) (p : Phase)
    → Backing outs a p
    → Backing outs (record a { reused = true }) p
unfolding IsValidating-update HasCandidate-update
Backing-reused outs a starting h = h
Backing-reused outs a running h = h
Backing-reused outs a stopping h = h
Backing-reused outs a validating h = IsValidating-update a _ refl refl refl h
Backing-reused outs a validation_stopping h = (
  IsValidating-update a _ refl refl refl h.0,
  record { verdict = h.1.verdict; stored = h.1.stored; own = h.1.own },
)
Backing-reused outs a succeeded h = record {
  validating = IsValidating-update a _ refl refl refl h.validating;
  judged = record { verdict = h.judged.verdict; stored = h.judged.stored; own = h.judged.own };
  passed = h.passed;
  adopted = h.adopted;
}
Backing-reused outs a failed h = tt
Backing-reused outs a suspended (inl e) = inl e
Backing-reused outs a suspended (inr h) = inr (IsValidating-update a _ refl refl refl h)

module _ {W : Type 0} (b : Backend W) (n : Node) (files : Map String) (a : Attempt) where
  abbrev Good : Result Fault (Option Attempt) → Type 0
  Good = Fine n.outputs a

  starting-Fine : Backing n.outputs a starting → (w : W) → Good (from_starting b n files a w).0
  unfolding from_starting
  starting-Fine h w = ground arith

  candidate-Fine :
      Backing n.outputs a running → (r : Option RunResult) → Good (take_candidate b n files a r)
  unfolding take_candidate
  candidate-Fine h none = tt
  candidate-Fine h (some c) = elim (String-cases c.task a.name) [
    | inl p ↦ rw p.1 ((h, (c, refl, p.0)), refl, refl)
    | inr p ↦ rw p.1 (λ q. cc)
  ]

  not_panic : (e : String) → outside e ≢ nil_pointer
  not_panic e h = cc

  running-Fine : Backing n.outputs a running → (w : W) → Good (from_running b n files a w).0
  unfolding from_running
  running-Fine h w =
      call_ind Good (b.result a.name) (λ r w'. (take_candidate b n files a r, w')) w not_panic
        (λ r w'. candidate-Fine h r)

  judge-Fine :
      (c : RunResult)
      → a.validator_name ≡ ""
      → a.candidate ≡ some c
      → c.task ≡ a.name
      → Good (judge b n files a (some c))
  unfolding judge
  judge-Fine c v e o = elim (Bool-cases (is_clean c)) [
    | inr z ↦ rw z (tt, refl, refl)
    | inl z ↦ elim (Bool-cases (nat_eq (length c.files) (length n.outputs))) [
      | inr q ↦ rw (z, q) (λ x. cc)
      | inl q ↦ elim (Option-cases (first_missing n.outputs c.files)) [
        | inr (f, m) ↦ rw (z, q, m) (λ x. cc)
        | inl m ↦
            rw (z, q, m)
              (
                record {
                  named = refl;
                  ready = record {
                    candidate = c;
                    stored = e;
                    own = o;
                    clean = z;
                    count = ground arith;
                    covers = first_missing-none n.outputs c.files m;
                  };
                },
                refl,
                refl,
              )
      ]
    ]
  ]

  -- Once an actor has stopped, `r` is the answer; until then the source continues.
  abbrev when_stopped : Result Fault (Option Attempt) → Bool → Advance W
  when_stopped r stopped w = if stopped then (r, w) else (ok none, w)

  when_stopped-Fine :
      (r : Result Fault (Option Attempt))
      → Good r
      → (stopped : Bool) (w : W) → Good (when_stopped r stopped w).0
  when_stopped-Fine r h true w = h
  when_stopped-Fine r h false w = tt

  stopping-Fine : Backing n.outputs a stopping → (w : W) → Good (from_stopping b n files a w).0
  unfolding from_stopping
  stopping-Fine (v, (c, e, o)) w =
      call_ind Good (b.suspend a.name) (when_stopped (judge b n files a a.candidate)) w not_panic (
        when_stopped-Fine (judge b n files a a.candidate)
          (subst (λ x. Good (judge b n files a x)) (sym e) (judge-Fine c v e o)))

  verdict-Fine :
      Backing n.outputs a validating → (r : Option RunResult) → Good (take_verdict b n files a r)
  unfolding take_verdict
  verdict-Fine h none = tt
  verdict-Fine h (some v) = elim (String-cases v.task a.validator_name) [
    | inl p ↦ rw p.1 (
      (IsValidating-update a _ refl refl refl h, record { verdict = v; stored = refl; own = p.0 }),
      refl,
      refl,
    )
    | inr p ↦ rw p.1 (λ q. cc)
  ]

  validator-Fine :
      Backing n.outputs a validating
      → (c : RunResult) (w : W) → Good (run_validator b n files a c w).0
  unfolding run_validator
  validator-Fine h c w =
      call_ind Good (b.ensure (validator_launch b n files a c)) (λ _. starts) w not_panic
        λ _ w₁.
          call_ind Good (b.start a.validator_name) (λ _. asks) w₁ not_panic
            λ _ w₂.
              call_ind Good (b.result a.validator_name) (λ r w'. (take_verdict b n files a r, w'))
                w₂ not_panic (λ r w₃. verdict-Fine h r)
    where
      asks : Advance W
      asks = call (b.result a.validator_name) (λ r w'. (take_verdict b n files a r, w'))

      starts : Advance W
      starts = call (b.start a.validator_name) (λ _. asks)

  validating-Fine :
      Backing n.outputs a validating → (w : W) → Good (from_validating b n files a w).0
  unfolding from_validating
  validating-Fine h w = rw (h.ready.stored, from_validating) (validator-Fine h h.ready.candidate w)

  conclude-Fine :
      IsValidating n.outputs a → HasVerdict a → Good (conclude b n files a a.candidate a.validation)
  unfolding conclude IsValidating-update HasCandidate-update
  conclude-Fine v d = elim (Bool-cases (is_clean d.verdict)) [
    | inr z ↦ rw (d.stored, z, conclude) (tt, refl, refl)
    | inl z ↦
        rw (d.stored, z, v.ready.stored, conclude)
          (
            record {
              validating = IsValidating-update a _ refl refl refl v;
              judged = record { verdict = d.verdict; stored = d.stored; own = d.own };
              passed = z;
              adopted = refl;
            },
            refl,
            refl,
          )
  ]

  validation_stopping-Fine :
      Backing n.outputs a validation_stopping
      → (w : W) → Good (from_validation_stopping b n files a w).0
  unfolding from_validation_stopping
  validation_stopping-Fine (v, d) w =
      call_ind Good (b.suspend a.validator_name)
        (when_stopped (conclude b n files a a.candidate a.validation)) w not_panic
        (when_stopped-Fine (conclude b n files a a.candidate a.validation) (conclude-Fine v d))

  -- Every phase.
  pub advance-Fine :
      (p : Phase) → a.phase ≡ p → Backing n.outputs a p → (w : W) → Good (advance b n files p a w).0
  unfolding advance
  advance-Fine starting e h w = starting-Fine h w
  advance-Fine running e h w = running-Fine h w
  advance-Fine stopping e h w = stopping-Fine h w
  advance-Fine validating e h w = validating-Fine h w
  advance-Fine validation_stopping e h w = validation_stopping-Fine h w
  advance-Fine succeeded e h w = (subst (Backing n.outputs a) (sym e) h, refl, refl)
  advance-Fine failed e h w = (subst (Backing n.outputs a) (sym e) h, refl, refl)
  advance-Fine suspended e h w = (subst (Backing n.outputs a) (sym e) h, refl, refl)
