-- ===== src/Ax/Controller/Conditions.antt =====
-- The conditions of a task (engine/ax/internal/controller/reconciler.go).
use task_a.Prelude.{String, List, [], ◌∷◌, ◌==◌, if◌then◌else◌, ◌≡◌}
use task_a.Ax.Types.{Condition}
use task_a.Ax.Controller.{Prepared, condition_true, conditions_of}

-- The conditions of this type, and those of all other types, in their order.
abbrev pub of_type : String → List Condition → List Condition
of_type type [] = []
of_type type (c ∷ cs) = let rest = of_type type cs in if c.type == type then c ∷ rest else rest

abbrev pub others : String → List Condition → List Condition
others type [] = []
others type (c ∷ cs) = let rest = others type cs in if c.type == type then rest else c ∷ rest

abbrev pub but_first : List Condition → List Condition
but_first [] = []
but_first (c ∷ cs) = cs

-- The task `t'` differs from `t` in one condition of the type of `c` only, which is `c`.
pub record IsPut {R : Type 0} (c : Condition) (t t' : Prepared R) : Type 0 where
  pub set : of_type c.type (conditions_of t') ≡ c ∷ but_first (of_type c.type (conditions_of t))
  pub kept : others c.type (conditions_of t') ≡ others c.type (conditions_of t)
  pub else_same : t' ≡ record t { status = record t.status { conditions = conditions_of t' } }
  pub truth :
      (other : String)
      → condition_true other t'
        ≡ (if c.type == other then c.status == "True" else condition_true other t)
