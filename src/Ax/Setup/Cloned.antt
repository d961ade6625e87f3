-- ===== src/Ax/Setup/Cloned.antt =====
-- What the clones of the workspace setup (engine/ax/internal/workspace/setup.go) report.
use task_a.Prelude.{
  ◌<◌, Bool, true, false, List, [], ◌∷◌, length, Option, none, some, if◌then◌else◌, ◌≡◌, refl, ap,
  inl, inr, Bool-cases, arith,
}
use task_a.Ax.Setup.Names.{Text, GitRepo, is_nil}
use task_a.Ax.Setup.Machine.{Output, Machine}
use task_a.Ax.Setup.Git.{clone_repos, record_fetch}

-- The addresses of the repositories that have one.
abbrev pub wanted : List (Option GitRepo) → List Text
wanted [] = []
wanted (none ∷ rs) = wanted rs
wanted (some r ∷ rs) = if is_nil r.repo then wanted rs else r.repo ∷ wanted rs

-- All were cloned, or the flag says that one was not.
abbrev pub Reports : List Text → List Text × Bool → Type 0
Reports all (cloned, true) = cloned ≡ all
Reports all (cloned, false) = length cloned < length all

one_more :
    (url : Text) (all : List Text) (x : List Text × Bool)
    → Reports all x
    → Reports (url ∷ all) (url ∷ x.0, x.1)
one_more url all (cloned, true) h = ap (λ us. url ∷ us) h
one_more url all (cloned, false) h = omega (arith, h)

one_less :
    (url : Text) (all : List Text) (x : List Text × Bool)
    → Reports all x
    → length x.0 < length (url ∷ all)
one_less url all (cloned, true) h =
    let same : length cloned ≡ length all = ap length h in omega (arith, same)
one_less url all (cloned, false) h = omega (arith, h)

module _ {W : Type 0} (m : Machine W) (ax_dir : Text) where
  record_fetch-Reports :
      (url : Text) (all : List Text) (rest : W → (List Text × Bool) × W) (x : Output W)
      → ((w : W) → Reports all (rest w).0)
      → Reports (url ∷ all) (record_fetch m ax_dir url rest x).0
  record_fetch-Reports url all rest (out, none, w) h = one_more url all _ (h _)
  record_fetch-Reports url all rest (out, some e, w) h = one_less url all _ (h _)

  -- The clones answer that all is well with exactly the addresses that the workspace names, in their
  -- order, and answer that it is not with fewer.
  pub clone_repos-Reports :
      (rs : List (Option GitRepo)) (target : Text) (w : W)
      → Reports (wanted rs) (clone_repos m ax_dir rs target w).0
  unfolding clone_repos
  clone_repos-Reports [] target w = refl
  clone_repos-Reports (none ∷ rs) target w = clone_repos-Reports rs target w
  clone_repos-Reports (some r ∷ rs) target w = elim (Bool-cases (is_nil r.repo)) [
    | inl e ↦ rw (e) (clone_repos-Reports rs target w)
    | inr e ↦ rw (e) (
        record_fetch-Reports r.repo (wanted rs) (clone_repos m ax_dir rs target) _
          (clone_repos-Reports rs target))
  ]
