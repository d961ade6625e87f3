-- ===== src/Ax/Setup/Again.antt =====
-- A second start of a workspace (engine/ax/internal/workspace/setup.go).
use task_a.Prelude.{List, [], Option, none, some}
use task_a.Ax.Setup.Names.{GitRepo}
use task_a.Ax.Setup.Machine.{Machine}
use task_a.Ax.Setup.Run.{SetupSpec}

abbrev pub repos_of : Option SetupSpec → List (Option GitRepo)
repos_of none = []
repos_of (some s) = s.git
