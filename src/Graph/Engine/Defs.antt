-- ===== src/Graph/Engine/Defs.antt =====
-- The interface of the engine, its errors, and `Apply` and `Resume`
-- (engine/ax/internal/taskgraph/engine.go).
use task_a.Prelude.{
  String, ℕ, ℤ, pos, negsuc, suc, ◌^◌, ◌-◌, Bool, true, false, not, ◌&&◌, ◌||◌, List, [], ◌∷◌, Map,
  insert, Option, none, some, Result, ok, err, Exec, if◌then◌else◌, ◌==◌, nat_eq,
}
use task_a.Graph.Model.{
  Plan, Node, RunResult, Phase, Attempt, State, starting, validating, succeeded, failed, suspended,
}
use task_a.Graph.Validate.{validate}
use task_a.Graph.Validate.Visit.{Error}

pub record Launch : Type 0 where
  pub name : String
  pub image : String
  pub command : List String
  pub files : Map String
  pub outputs : List String

-- An error text of the world is passed on as `outside`; a nil pointer that is read is a panic.
pub data Fault : Type 0 where
  outside : String → Fault
  missing_output : String → Fault
  candidate_mismatch outputs_differ validator_mismatch inputs_unavailable nil_pointer : Fault

pub record Backend (W : Type 0) : Type 0 where
  pub ensure : Launch → Exec W String (Unit {0})
  pub start : String → Exec W String (Unit {0})
  pub result : String → Exec W String (Option RunResult)
  pub suspend : String → Exec W String Bool
  pub save : State → Exec W String (Unit {0})

-- `Digest` (SHA-256 of the JSON form), at the values that the engine hashes.
pub record Digests : Type 0 where
  pub of_plan : Plan → String
  pub of_work : Node → Map String → String
  -- "ta-" and 40 digits of the digest of scope, plan id, revision, task id and fingerprint
  pub name_of : (scope plan_id : String) → ℤ → (id fingerprint : String) → String

-- Go's `int` is a 64-bit integer, and `+ 1` wraps round.
unfoldable pub next_revision : ℤ → ℤ
next_revision (pos n) = if nat_eq n (2 ^ 63 - 1) then negsuc (2 ^ 63 - 1) else pos (suc n)
next_revision (negsuc ℕ.zero) = pos 0
next_revision (negsuc (ℕ.suc n)) = negsuc n

unfoldable pub int_eq : ℤ → ℤ → Bool
int_eq (pos a) (pos b) = nat_eq a b
int_eq (negsuc a) (negsuc b) = nat_eq a b
int_eq _ _ = false

-- a.Phase != "succeeded" && a.Phase != "failed" && a.Phase != "suspended", negated
unfoldable pub is_settled : Phase → Bool
is_settled succeeded = true
is_settled failed = true
is_settled suspended = true
is_settled _ = false

pub data ApplyError : Type 0 where
  invalid : Error → ApplyError
  not_next_revision still_running : ApplyError

-- for id, a := range old.Attempts
unfoldable pub carry_over : Map Attempt → Map Attempt → Result ApplyError (Map Attempt)
unfolding is_settled
carry_over [] previous = ok previous
carry_over ((id, a) ∷ attempts) previous =
    let rest =
      carry_over attempts (elim a.phase [ succeeded ↦ insert id a previous | _ ↦ previous ]) in
    if is_settled a.phase then rest else err still_running

abbrev pub fresh : Plan → State
fresh p = record { plan = p; paused = false; attempts = []; previous = [] }

module _ (d : Digests) where
  unfoldable pub revise : State → Plan → Result ApplyError State
  unfolding next_revision int_eq
  revise old p =
      if d.of_plan p == d.of_plan old.plan
      then ok old
      else if not (p.id == old.plan.id) || not (int_eq p.revision (next_revision old.plan.revision))
      then err not_next_revision
      else elim (carry_over old.attempts []) [
        | ok previous ↦ ok (record (fresh p) { previous = previous })
        | err e ↦ err e
      ]

  unfoldable pub apply : Option State → Plan → Result ApplyError State
  apply old p = elim (validate p) [
    | err e ↦ err (invalid e)
    | ok _ ↦ elim old [ none ↦ ok (fresh p) | some s ↦ revise s p ]
  ]

-- The second loop of `Resume`, for an attempt in this phase.
unfoldable pub resume_from : Phase → Attempt → Attempt
resume_from suspended a =
    if not (a.validator_name == "")
    then record a { phase = validating }
    else record a { phase = starting }
resume_from _ a = a

unfoldable pub resumed : Attempt → Attempt
unfolding resume_from
resumed a = resume_from a.phase a

unfoldable pub resume_all : Map Attempt → Map Attempt
resume_all [] = []
resume_all ((id, a) ∷ m) = (id, resumed a) ∷ resume_all m

unfoldable pub all_settled : Map Attempt → Bool
all_settled [] = true
all_settled ((id, a) ∷ m) = is_settled a.phase && all_settled m

-- `none` is the error that the suspension has not completed; the state is then as it was.
unfoldable pub resume : State → Option State
resume s =
    if all_settled s.attempts
    then some (record s { attempts = resume_all s.attempts; paused = false })
    else none
