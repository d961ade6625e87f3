-- ===== src/Ax/Setup/Names.antt =====
-- The paths and names of the workspace setup (engine/ax/internal/workspace/setup.go), as lists of code
-- points, with what it calls of Go's `strings` and `path/filepath` on Unix.
use task_a.Prelude.{
  ℕ, ℤ, Bool, true, false, ◌&&◌, ◌||◌, not, List, [], ◌∷◌, ◌++◌, map, Option, none, some, leb,
  nat_eq, if◌then◌else◌,
}
use task_a.Graph.Paths.Codes.{codes, list_eq, slash, dot}
use task_a.Graph.Paths.Clean.{clean}

abbrev pub Text : Type 0
Text = List ℕ

abbrev pub is_nil : Text → Bool
is_nil [] = true
is_nil (c ∷ cs) = false

-- filepath.IsAbs
abbrev pub is_abs : Text → Bool
is_abs [] = false
is_abs (c ∷ cs) = nat_eq c slash

-- filepath.Join(a, b)
unfoldable pub join_path : Text → Text → Text
unfolding clean
join_path [] [] = []
join_path [] (c ∷ b) = clean (c ∷ b)
join_path (c ∷ a) [] = clean (c ∷ a)
join_path (c ∷ a) (d ∷ b) = clean (c ∷ a ++ (slash ∷ d ∷ b))

-- The part up to the last slash, with it.
abbrev pub up_to_last : Text → Text
up_to_last [] = []
up_to_last (c ∷ s) =
    let rest = up_to_last s in if nat_eq c slash || not (is_nil rest) then c ∷ rest else []

-- filepath.Dir
unfoldable pub dir_of : Text → Text
unfolding clean
dir_of path = clean (up_to_last path)

-- strings.TrimLeft(s, "/")
abbrev pub trim_left : Text → Text
trim_left [] = []
trim_left (c ∷ s) = let rest = trim_left s in if nat_eq c slash then rest else c ∷ s

-- strings.TrimRight(s, "/")
abbrev pub trim_right : Text → Text
trim_right [] = []
trim_right (c ∷ s) =
    let rest = trim_right s in if nat_eq c slash && is_nil rest then [] else c ∷ rest

-- strings.ReplaceAll(s, "/", "-")
abbrev pub dashed : Text → Text
dashed s = map (λ c. if nat_eq c slash then 45 else c) s

abbrev pub or_root : Text → Text
or_root [] = codes "root"
or_root (c ∷ s) = c ∷ s

-- if path == "" { path = defaultWorkspacePath }
abbrev pub or_workspace : Text → Text
or_workspace [] = codes "/workspace"
or_workspace (c ∷ s) = c ∷ s

unfoldable pub marker_name : Text → Text
unfolding clean
marker_name path =
    codes "initialized"
    ++ (45 ∷ dashed (or_root (trim_right (trim_left (clean (or_workspace path))))))

-- unicode.IsSpace
abbrev pub is_space : ℕ → Bool
is_space c =
    (leb 9 c && leb c 13)
    || nat_eq c 32
    || nat_eq c 133
    || nat_eq c 160
    || nat_eq c 5760
    || (leb 8192 c && leb c 8202)
    || nat_eq c 8232
    || nat_eq c 8233
    || nat_eq c 8239
    || nat_eq c 8287
    || nat_eq c 12288

abbrev trim_space_left : Text → Text
trim_space_left [] = []
trim_space_left (c ∷ s) = let rest = trim_space_left s in if is_space c then rest else c ∷ s

abbrev trim_space_right : Text → Text
trim_space_right [] = []
trim_space_right (c ∷ s) =
    let rest = trim_space_right s in if is_space c && is_nil rest then [] else c ∷ rest

-- strings.TrimSpace
abbrev pub trim_space : Text → Text
trim_space s = trim_space_right (trim_space_left s)

-- strings.TrimSuffix, for a suffix that is not empty, its arguments the other way round
unfoldable pub trim_suffix : Text → Text → Text
unfolding list_eq
trim_suffix suffix [] = []
trim_suffix suffix (c ∷ s) =
    let rest = trim_suffix suffix s in if list_eq (c ∷ s) suffix then [] else c ∷ rest

-- What follows the last "/" or ":", where there is one.
unfoldable pub after_last : Text → Option Text
after_last [] = none
after_last (c ∷ s) =
    let here = if nat_eq c slash || nat_eq c 58 then some s else none in
    elim (after_last s) [ none ↦ here | some r ↦ some r ]

unfoldable pub repo_dir_name : Text → Text
unfolding trim_suffix after_last
repo_dir_name url =
    let trimmed = trim_suffix (codes ".git") (trim_suffix (slash ∷ []) (trim_space url)) in
    elim (after_last trimmed) [ none ↦ trimmed | some rest ↦ rest ]

pub record GitRepo : Type 0 where
  pub name : Text
  pub repo : Text
  pub branch : Text
  pub dir : Text
  pub depth : ℤ

-- The name of the directory, where the one derived from the address is `derived`.
abbrev pub dir_name : (name derived : Text) → Text
dir_name name (c ∷ d) = c ∷ d
dir_name [] [] = codes "repo"
dir_name (c ∷ name) [] = c ∷ name

unfoldable pub clone_destination : GitRepo → Text → Text
unfolding join_path repo_dir_name list_eq
clone_destination r target =
    if not (is_nil r.dir)
    then if list_eq r.dir dot
      then target
      else if is_abs r.dir
      then r.dir
      else join_path target r.dir
    else join_path target (
        if is_nil r.name || list_eq r.name (codes "repo") || list_eq r.name (codes "origin")
        then dir_name r.name (repo_dir_name r.repo)
        else r.name)
