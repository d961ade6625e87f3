-- ===== src/Ax/Setup/Git.antt =====
-- The clones of the workspace setup (engine/ax/internal/workspace/setup.go).
use task_a.Prelude.{
  ℕ, ℤ, pos, negsuc, zero, suc, Bool, true, false, List, [], ◌∷◌, ◌++◌, Option, none, some,
  if◌then◌else◌,
}
use task_a.Graph.Paths.Codes.{codes}
use task_a.Ax.Setup.Names.{Text, is_nil, GitRepo, clone_destination, join_path}
use task_a.Ax.Setup.Machine.{GitCommand, Output, Machine}

abbrev pub git_name : GitCommand → Text
git_name GitCommand.init = codes "init"
git_name (GitCommand.remote_add url) = codes "remote"
git_name (GitCommand.remote_set_url url) = codes "remote"
git_name (GitCommand.fetch depth branch) = codes "fetch"
git_name GitCommand.checkout = codes "checkout"

module _ {W : Type 0} where
  -- if err := …; err != nil { return combined, err }
  abbrev pub unless_failed : Output W → (Text → W → Output W) → Output W
  unless_failed (out, none, w) rest = rest out w
  unless_failed (out, some e, w) rest = (out, some e, w)

  -- if err := …; err != nil { … }
  abbrev pub if_failed : Output W → (Text → W → Output W) → Output W
  if_failed (out, none, w) second = (out, none, w)
  if_failed (out, some e, w) second = second out w

  -- Appended to what was combined so far, with the error in its frame.
  abbrev pub combined : GitCommand → Text → Output W → Output W
  combined c before (out, none, w) = (before ++ out, none, w)
  combined c before (out, some e, w) =
      (before ++ out, some (codes "git " ++ (git_name c ++ (codes ": " ++ e))), w)

-- if depth > 0
-- "error: %v\noutput: %s\n"
abbrev pub error_log : (e out : Text) → Text
error_log e out = codes "error: " ++ (e ++ (codes "\noutput: " ++ (out ++ (10 ∷ []))))

abbrev pub positive : ℤ → Option ℤ
positive (pos zero) = none
positive (pos (suc n)) = some (pos (suc n))
positive (negsuc n) = none

module _ {W : Type 0} (m : Machine W) where
  unfoldable pub git_run : Text → GitCommand → Text → W → Output W
  git_run dir c before w = combined c before (m.git dir c w)

  unfoldable pub fetch_repo : (dir url branch : Text) → (depth : ℤ) → W → Output W
  unfolding git_run
  fetch_repo dir url branch depth w = unless_failed (git_run dir GitCommand.init [] w) (λ out w1.
      unless_failed
        (if_failed (git_run dir (GitCommand.remote_add url) out w1)
          (λ out1 w2. git_run dir (GitCommand.remote_set_url url) out1 w2))
        (λ out2 w3.
          unless_failed (git_run dir (GitCommand.fetch (positive depth) branch) out2 w3)
            (λ out3 w4. git_run dir GitCommand.checkout out3 w4)))

module _ {W : Type 0} (m : Machine W) (delay : ℕ) (op : W → Output W) where
  -- After the wait; an error of the context is joined to the operation's.
  abbrev pub after_wait : (W → Output W) → (out e : Text) → Bool × W → Output W
  after_wait again out e (true, w) = again w
  after_wait again out e (false, w) = (out, some (e ++ (10 ∷ m.ctx_error w)), w)

  abbrev pub after_try : (left : ℕ) → (W → Output W) → Output W → Output W
  after_try zero again r = r
  after_try (suc n) again (out, none, w) = (out, none, w)
  after_try (suc n) again (out, some e, w) = after_wait again out e (m.wait delay w)

  -- So many attempts at most, with a wait of `delay` between two of them.
  unfoldable pub retry : (attempts : ℕ) → W → Output W
  retry zero w = ([], none, w)
  retry (suc n) w = after_try n (retry n) (op w)

module _ {W : Type 0} (m : Machine W) (ax_dir : Text) where
  unfoldable pub write_state_file : (name content : Text) → W → W
  unfolding join_path
  write_state_file name content w = (m.write_file (join_path ax_dir name) content w).1

  abbrev pub fetched : GitRepo → (dest : Text) → W → Output W
  unfolding retry fetch_repo
  fetched r dest w =
      let branch = if is_nil r.branch then codes "main" else r.branch in
      retry m 2000000000 (fetch_repo m dest r.repo branch r.depth) 5 w

  -- The rest of the loop after one repository.
  abbrev pub record_fetch : Text → (W → (List Text × Bool) × W) → Output W → (List Text × Bool) × W
  record_fetch url rest (out, none, w) =
      let ((cloned, all), v) = rest (write_state_file (codes "git-success.log") out w) in
      ((url ∷ cloned, all), v)
  record_fetch url rest (out, some e, w) =
      let ((cloned, all), v) =
        rest (write_state_file (codes "git-error.log") (error_log e out) w) in
      ((cloned, false), v)

  -- The repositories that were cloned, and whether all were.
  unfoldable pub clone_repos : List (Option GitRepo) → (target : Text) → W → (List Text × Bool) × W
  unfolding clone_destination
  clone_repos [] target w = (([], true), w)
  clone_repos (none ∷ rs) target w = clone_repos rs target w
  clone_repos (some r ∷ rs) target w =
      let dest = clone_destination r target in
      let rest = clone_repos rs target in
      if is_nil r.repo
      then rest w
      else record_fetch r.repo rest (fetched r dest (m.mkdir_all dest w).1)
