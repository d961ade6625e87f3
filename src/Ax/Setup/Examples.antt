-- ===== src/Ax/Setup/Examples.antt =====
-- Runs of the workspace setup (engine/ax/internal/workspace/setup.go) on a machine in memory.
use task_a.Prelude.{
  ℕ, pos, zero, suc, Option, Bool, true, false, List, [], ◌∷◌, none, some, Result, arith,
  if◌then◌else◌, ◌≡◌, refl,
}
use task_a.Graph.Paths.Codes.{codes, list_eq, has_prefix}
use task_a.Graph.Paths.Clean.{clean, split, go_up, push, squash, join}
use task_a.Ax.Setup.Names.{
  Text, GitRepo, join_path, marker_name, repo_dir_name, clone_destination, trim_suffix, after_last,
}
use task_a.Ax.Setup.Machine.{Output, Machine}
use task_a.Ax.Setup.Git.{retry, fetch_repo, git_run, clone_repos, write_state_file}
use task_a.Ax.Setup.Run.{
  SetupResult, Workspace, setup_workspace, first_run, populate, write_files, setup_skills,
  write_marker, run_bootstrap,
}
use task_a.Ax.Setup.Attempts.{at_once, after, retry-Fails}
use task_a.Ax.Setup.Cloned.{wanted}
use task_a.Ax.Setup.Fetched.{Fetches, succeeded, none_failed, addresses, clone_repos-Fetches}

-- The files that are there, and how many runs of git fail first.
record Disk : Type 0 where
  files : List Text
  broken : ℕ

abbrev has_file : Text → List Text → Bool
has_file p [] = false
has_file p (q ∷ qs) = let rest = has_file p qs in if list_eq p q then true else rest

abbrev answer : ℕ → Disk → Output Disk
answer zero d = ([], none, d)
answer (suc n) d = ([], some (codes "no network"), record d { broken = n })

abbrev memory : Machine Disk
memory = record {
  absolute = λ p d. some p;
  exists = λ p d. has_file p d.files;
  mkdir_all = λ p d. (true, d);
  write_file = λ p content d. (true, record d { files = p ∷ d.files });
  git = λ dir c d. answer d.broken d;
  wait = λ n d. (true, d);
  ctx_error = λ d. [];
  getenv = λ name d. [];
  parse_duration = λ s. none;
  run_agent = λ goal target data_dir timeout d. (true, d);
  now = λ d. [];
}

program : Unit {0}
unfolding list_eq has_prefix clean split go_up push squash join join_path marker_name repo_dir_name
    clone_destination trim_suffix after_last retry fetch_repo git_run clone_repos write_state_file
    setup_workspace first_run populate write_files setup_skills write_marker run_bootstrap
program = tt

abbrev chalk : GitRepo
chalk = record {
  name = [];
  repo = codes "https://github.com/chalk/chalk.git";
  branch = [];
  dir = [];
  depth = pos 1;
}

chalk-name : repo_dir_name chalk.repo ≡ codes "chalk"
unfolding program
chalk-name = refl

chalk-destination : clone_destination chalk (codes "/workspace") ≡ codes "/workspace/chalk"
unfolding program
chalk-destination = refl

-- Two mount points of one task may share their marker.
same_marker : marker_name (codes "/workspace/a/b") ≡ marker_name (codes "/workspace/a-b")
unfolding program
same_marker = refl

abbrev unreliable : Disk
unreliable = record { files = []; broken = 2 }

abbrev mended : Disk
mended = record { files = []; broken = 0 }

retry-Fails_example : retry memory 0 (λ d. answer d.broken d) 5 unreliable ≡ ([], none, mended)
retry-Fails_example =
    retry-Fails memory 0 (λ d. answer d.broken d) 5 (omega arith)
      (after refl refl (after refl refl at_once)) refl

-- The first repository cannot be fetched, the second can.
abbrev fails_once : Machine Disk
fails_once = record memory { wait = λ n d. (false, d); ctx_error = λ d. codes "done" }

abbrev paper : GitRepo
paper = record chalk { repo = codes "https://github.com/chalk/paper.git" }

abbrev both : List (Option GitRepo)
both = some chalk ∷ none ∷ some paper ∷ []

abbrev one_broken : Disk
one_broken = record { files = []; broken = 1 }

one_of_both :
    (clone_repos fails_once (codes "/ax") both (codes "/workspace") one_broken).0
    ≡ (paper.repo ∷ [], false)
unfolding program
one_of_both = refl

clone_repos-Fetches_example :
    (trace : List (Text × Option Text)) × Fetches fails_once
      (codes "/ax")
      (codes "/workspace")
      both
      one_broken
      trace
      (clone_repos fails_once (codes "/ax") both (codes "/workspace") one_broken).1
    × ((clone_repos fails_once (codes "/ax") both (codes "/workspace") one_broken).0
        ≡ (succeeded trace, none_failed trace))
    × (addresses trace ≡ wanted both)
clone_repos-Fetches_example =
    clone_repos-Fetches fails_once (codes "/ax") (codes "/workspace") both one_broken

abbrev project : Workspace
project = record {
  name = codes "code";
  spec = some (record { git = some chalk ∷ []; files = []; skills = none });
}

abbrev first : Result Text SetupResult × Disk
first = setup_workspace memory (codes "/ax") (some project) (codes "/workspace") [] mended

abbrev first_result : SetupResult
first_result = record {
  workspace_path = codes "/workspace";
  cloned_repos = chalk.repo ∷ [];
  skills_mounted = [];
  is_maiden_run = true;
  bootstrap_ran = false;
}
