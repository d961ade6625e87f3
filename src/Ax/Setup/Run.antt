-- ===== src/Ax/Setup/Run.antt =====
-- `SetupWorkspace` (engine/ax/internal/workspace/setup.go). Only errors that end it are answered; the others
-- are logged. `ax_dir` is the directory of the system's own state.
use task_a.Prelude.{
  zero, suc, ℤ, pos, negsuc, Bool, true, false, not, List, [], ◌∷◌, ◌++◌, Option, none, some,
  Result, ok, err, if◌then◌else◌,
}
use task_a.Graph.Paths.Codes.{codes}
use task_a.Ax.Setup.Names.{
  Text, is_nil, is_abs, GitRepo, join_path, dir_of, marker_name, or_workspace,
}
use task_a.Ax.Setup.Machine.{Machine}
use task_a.Ax.Setup.Git.{clone_repos}

pub record InlineFile : Type 0 where
  pub path : Text
  pub content : Text

-- The parts of a workspace that the setup reads; `skills` is the path of the declared skills.
pub record SetupSpec : Type 0 where
  pub git : List (Option GitRepo)
  pub files : List (Option InlineFile)
  pub skills : Option Text

pub record Workspace : Type 0 where
  pub name : Text
  pub spec : Option SetupSpec

pub record SetupResult : Type 0 where
  pub workspace_path : Text
  pub cloned_repos : List Text
  pub skills_mounted : Text
  pub is_maiden_run : Bool
  pub bootstrap_ran : Bool

abbrev pub name_or_unknown : Option Workspace → Text
name_or_unknown none = codes "unknown"
name_or_unknown (some ws) = if is_nil ws.name then codes "unknown" else ws.name

-- if ws != nil && ws.Spec != nil
abbrev pub spec_of : Option Workspace → Option SetupSpec
spec_of none = none
spec_of (some ws) = ws.spec

abbrev pub or_absolute : Text → Option Text → Text
or_absolute p none = p
or_absolute p (some q) = q

module _ {W : Type 0} (m : Machine W) where
  unfoldable pub write_files : List (Option InlineFile) → (target : Text) → W → W
  unfolding join_path dir_of
  write_files [] target w = w
  write_files (none ∷ fs) target w = write_files fs target w
  write_files (some f ∷ fs) target w =
      let dest = if is_abs f.path then f.path else join_path target f.path in
      let (made, w1) = m.mkdir_all (dir_of dest) w in
      let rest = write_files fs target in
      if is_nil f.path
      then rest w
      else if made
      then rest (m.write_file dest f.content w1).1
      else rest w1

  unfoldable pub setup_skills : Option Text → W → Text × W
  setup_skills none w = ([], w)
  setup_skills (some p) w = if is_nil p then ([], w) else (p, (m.mkdir_all p w).1)

  -- d, err := …; if err != nil || d <= 0, in nanoseconds
  abbrev pub positive_duration : Option ℤ → ℤ
  positive_duration (some (pos (suc n))) = pos (suc n)
  positive_duration (some (pos zero)) = pos 600000000000
  positive_duration (some (negsuc n)) = pos 600000000000
  positive_duration none = pos 600000000000

  unfoldable pub bootstrap_timeout : W → ℤ
  bootstrap_timeout w =
      let raw = m.getenv (codes "AX_BOOTSTRAP_TIMEOUT") w in
      if is_nil raw then pos 600000000000 else positive_duration (m.parse_duration raw)

  module _ (ax_dir : Text) where
    unfoldable pub run_bootstrap : (goal target : Text) → W → Bool × W
    unfolding join_path bootstrap_timeout
    run_bootstrap goal target w =
        let data_dir = join_path ax_dir (codes "antigravity") in
        let w1 = (m.mkdir_all data_dir w).1 in
        if not (m.exists (codes "/usr/local/bin/antigravity_bootstrap.py") w)
        then (false, w)
        else if is_nil (m.getenv (codes "GEMINI_API_KEY") w)
        then (false, w)
        else m.run_agent goal target data_dir (bootstrap_timeout w) w1

    unfoldable pub write_marker : (path : Text) → Option Workspace → W → W
    write_marker path ws w =
        let content =
          codes "workspace: "
          ++ (name_or_unknown ws ++ (codes "\ninitialized_at: " ++ (m.now w ++ (10 ∷ [])))) in
        (m.write_file path content w).1

    -- The files, the clones and the skills: what was cloned, whether everything was, and the skills' path
    unfoldable pub populate : Option SetupSpec → (target : Text) → W → (List Text × Bool × Text) × W
    unfolding write_files clone_repos setup_skills
    populate none target w = (([], true, []), w)
    populate (some s) target w =
        let ((cloned, all), w1) =
          clone_repos m ax_dir s.git target (write_files s.files target w) in
        let (path, w2) = setup_skills s.skills w1 in ((cloned, all, path), w2)

    -- The first run at this path, with its marker at `marker`.
    unfoldable pub first_run : Option Workspace → (target goal marker : Text) → W → SetupResult × W
    unfolding populate run_bootstrap write_marker
    first_run ws target goal marker w =
        let ((cloned, all, skills), w1) = populate (spec_of ws) target w in
        let (ran, w2) = if is_nil goal then (false, w1) else run_bootstrap goal target w1 in
        let result : SetupResult = record {
          workspace_path = target;
          cloned_repos = cloned;
          skills_mounted = skills;
          is_maiden_run = true;
          bootstrap_ran = ran;
        } in
        (result, if all then write_marker marker ws w2 else w2)

    abbrev pub skipped : Text → SetupResult
    skipped target = record {
      workspace_path = target;
      cloned_repos = [];
      skills_mounted = [];
      is_maiden_run = false;
      bootstrap_ran = false;
    }

    abbrev pub marker_path : Text → Text
    unfolding join_path marker_name
    marker_path target = join_path ax_dir (marker_name target)

    abbrev pub target_path : Text → W → Text
    target_path path w = or_absolute (or_workspace path) (m.absolute (or_workspace path) w)

    -- An error is the path of the directory that could not be made.
    unfoldable pub setup_workspace :
        Option Workspace → (path goal : Text) → W → Result Text SetupResult × W
    setup_workspace ws path goal w =
        let target = target_path path w in
        let (made, w1) = m.mkdir_all target w in
        let w2 = (m.mkdir_all ax_dir w1).1 in
        let (result, w3) = first_run ws target goal (marker_path target) w2 in
        if not made
        then (err target, w1)
        else if m.exists (marker_path target) w2
        then (ok (skipped target), w2)
        else (ok result, w3)
