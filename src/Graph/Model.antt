-- ===== src/Graph/Model.antt =====
-- The data of engine/ax/internal/taskgraph/model.go. Go's `map[string]T` is a `Map`, a pointer that
-- may be nil an `Option`, and an `int` that is only tested for zero, or stepped by one, a `ℤ`.
use task_a.Prelude.{String, ℤ, List, Map, Option, Bool}

pub record Input : Type 0 where
  pub task : String
  pub output : String

pub record Validator : Type 0 where
  pub image : String
  pub command : List String
  pub files : Map String

pub record Node : Type 0 where
  pub id : String
  pub goal : String
  pub contract : String
  pub image : String
  pub command : List String
  pub files : Map String
  pub inputs : Map Input
  pub outputs : List String
  pub validator : Validator

pub record Plan : Type 0 where
  pub id : String
  pub revision : ℤ
  pub tasks : List Node

-- `Result` of the source: what an actor left behind.
pub record RunResult : Type 0 where
  pub task : String
  pub exit_code : ℤ
  pub files : Map String
  pub error : String

-- The values that the source assigns to the text `Phase`.
pub data Phase : Type 0 where
  starting running stopping validating validation_stopping succeeded failed suspended : Phase

pub record Attempt : Type 0 where
  pub name : String
  pub fingerprint : String
  pub phase : Phase
  pub candidate : Option RunResult
  pub validator_name : String
  pub validation : Option RunResult
  pub outputs : Map String
  pub reused : Bool

pub record State : Type 0 where
  pub plan : Plan
  pub paused : Bool
  pub attempts : Map Attempt
  pub previous : Map Attempt
