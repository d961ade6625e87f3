-- ===== src/Ax/Setup/Fetched.antt =====
-- The clones of the workspace setup (engine/ax/internal/workspace/setup.go), fetch by fetch.
use task_a.Prelude.{
  Bool, true, false, List, [], ◌∷◌, Option, none, some, ◌≡◌, refl, ap, inl, inr, Bool-cases,
}
use task_a.Graph.Paths.Codes.{codes}
use task_a.Ax.Setup.Names.{Text, GitRepo, is_nil, clone_destination}
use task_a.Ax.Setup.Machine.{Output, Machine}
use task_a.Ax.Setup.Git.{clone_repos, record_fetch, fetched, write_state_file, error_log}
use task_a.Ax.Setup.Cloned.{wanted}

-- The address of each repository that was fetched, with the error of its fetch.
abbrev pub Trace : Type 0
Trace = List (Text × Option Text)

abbrev pub addresses : Trace → List Text
addresses [] = []
addresses ((url, e) ∷ fs) = url ∷ addresses fs

-- The addresses whose fetch had no error.
abbrev pub succeeded : Trace → List Text
succeeded [] = []
succeeded ((url, none) ∷ fs) = url ∷ succeeded fs
succeeded ((url, some e) ∷ fs) = succeeded fs

abbrev pub none_failed : Trace → Bool
none_failed [] = true
none_failed ((url, none) ∷ fs) = none_failed fs
none_failed ((url, some e) ∷ fs) = false

module _ {W : Type 0} (m : Machine W) (ax_dir target : Text) where
  -- The fetch of one repository, into the directory that was made for it.
  abbrev pub fetch_of : GitRepo → W → Output W
  fetch_of r w =
      fetched m ax_dir r (clone_destination r target) (m.mkdir_all (clone_destination r target) w).1

  -- The fetches of the named repositories in their order, each in the world that the log of the one
  -- before it leaves.
  pub data Fetches : List (Option GitRepo) → W → Trace → W → Type 0 where
    done : {w : W} → Fetches [] w [] w
    absent :
        {rs : List (Option GitRepo)} {w v : W} {fs : Trace}
        → Fetches rs w fs v
        → Fetches (none ∷ rs) w fs v
    unnamed :
        {r : GitRepo} {rs : List (Option GitRepo)} {w v : W} {fs : Trace}
        → is_nil r.repo ≡ true
        → Fetches rs w fs v
        → Fetches (some r ∷ rs) w fs v
    cloned :
        {r : GitRepo} {rs : List (Option GitRepo)} {w u v : W} {fs : Trace} (out : Text)
        → is_nil r.repo ≡ false
        → fetch_of r w ≡ (out, none, u)
        → Fetches rs (write_state_file m ax_dir (codes "git-success.log") out u) fs v
        → Fetches (some r ∷ rs) w ((r.repo, none) ∷ fs) v
    failed :
        {r : GitRepo} {rs : List (Option GitRepo)} {w u v : W} {fs : Trace} (out e : Text)
        → is_nil r.repo ≡ false
        → fetch_of r w ≡ (out, some e, u)
        → Fetches rs (write_state_file m ax_dir (codes "git-error.log") (error_log e out) u) fs v
        → Fetches (some r ∷ rs) w ((r.repo, some e) ∷ fs) v

  -- What an answer of the clones says of the fetches that were made.
  abbrev pub Follows : List (Option GitRepo) → W → (List Text × Bool) × W → Type 0
  Follows rs w x =
      (trace : Trace) × Fetches rs w trace x.1
      × (x.0 ≡ (succeeded trace, none_failed trace))
      × (addresses trace ≡ wanted rs)

  named :
      (r : GitRepo) (rs : List (Option GitRepo)) (w : W) (x : Output W)
      → is_nil r.repo ≡ false
      → fetch_of r w ≡ x
      → ((v : W) → Follows rs v (clone_repos m ax_dir rs target v))
      → (trace : Trace) × Fetches
          (some r ∷ rs)
          w
          trace
          (record_fetch m ax_dir r.repo (clone_repos m ax_dir rs target) x).1
        × ((record_fetch m ax_dir r.repo (clone_repos m ax_dir rs target) x).0
            ≡ (succeeded trace, none_failed trace))
        × (addresses trace ≡ r.repo ∷ wanted rs)
  named r rs w (out, none, u) has_url h rest =
      let (trace, fetches, answer, all) =
        rest (write_state_file m ax_dir (codes "git-success.log") out u) in
      (
        (r.repo, none) ∷ trace,
        cloned out has_url h fetches,
        ap (λ (y : List Text × Bool). (r.repo ∷ y.0, y.1)) answer,
        ap (λ us. r.repo ∷ us) all,
      )
  named r rs w (out, some e, u) has_url h rest =
      let (trace, fetches, answer, all) =
        rest (write_state_file m ax_dir (codes "git-error.log") (error_log e out) u) in
      (
        (r.repo, some e) ∷ trace,
        failed out e has_url h fetches,
        ap (λ (y : List Text × Bool). (y.0, false)) answer,
        ap (λ us. r.repo ∷ us) all,
      )

  -- The clones are a run of the fetches of the repositories that have an address, in their order, and
  -- of those only. They answer the addresses whose fetch had no error, in order, and that all is well
  -- exactly where no fetch had one.
  pub clone_repos-Fetches :
      (rs : List (Option GitRepo)) (w : W)
      → (trace : List (Text × Option Text)) × Fetches rs w trace
          (clone_repos m ax_dir rs target w).1
        × ((clone_repos m ax_dir rs target w).0 ≡ (succeeded trace, none_failed trace))
        × (addresses trace ≡ wanted rs)
  unfolding clone_repos
  clone_repos-Fetches [] w = ([], done, refl, refl)
  clone_repos-Fetches (none ∷ rs) w =
      let (trace, fetches, answer, all) = clone_repos-Fetches rs w in
      (trace, absent fetches, answer, all)
  clone_repos-Fetches (some r ∷ rs) w = elim (Bool-cases (is_nil r.repo)) [
    | inl e ↦
        let (trace, fetches, answer, all) = clone_repos-Fetches rs w in
        rw (e) (trace, unnamed e fetches, answer, all)
    | inr e ↦ rw (e) (named r rs w _ e refl (clone_repos-Fetches rs))
  ]
