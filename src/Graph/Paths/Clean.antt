-- ===== src/Graph/Paths/Clean.antt =====
-- Go's `path.Clean`, on the segments between slashes, as `validPath` calls it
-- (engine/ax/internal/taskgraph/model.go).
use task_a.Prelude.{ℕ, Bool, ◌||◌, List, [], ◌∷◌, ◌++◌, if◌then◌else◌, nat_eq}
use mathlib.Core.List.{reverse}
use task_a.Graph.Paths.Codes.{list_eq, has_prefix, slash, dot, dot_dot}

-- strings.Split(p, "/")
abbrev pub cons_head : ℕ → List (List ℕ) → List (List ℕ)
cons_head c [] = (c ∷ []) ∷ []
cons_head c (s ∷ ss) = (c ∷ s) ∷ ss

unfoldable pub split : List ℕ → List (List ℕ)
split [] = [] ∷ []
split (c ∷ p) = if nat_eq c slash then [] ∷ split p else cons_head c (split p)

-- strings.Join(segments, "/")
unfoldable pub join : List (List ℕ) → List ℕ
join [] = []
join (s ∷ []) = s
join (s ∷ t ∷ r) = s ++ (slash ∷ join (t ∷ r))

-- "Eliminate each inner .. path name element along with the non-.. element that precedes it", on a
-- stack of the segments kept so far; at the root of a rooted path it is dropped.
unfoldable pub go_up : Bool → List (List ℕ) → List (List ℕ)
go_up rooted [] = if rooted then [] else dot_dot ∷ []
go_up rooted (s ∷ st) = if list_eq s dot_dot then dot_dot ∷ s ∷ st else st

unfoldable pub push : Bool → List (List ℕ) → List ℕ → List (List ℕ)
unfolding go_up
push rooted st s =
    if list_eq s [] || list_eq s dot
    then st
    else if list_eq s dot_dot
    then go_up rooted st
    else s ∷ st

unfoldable pub squash : Bool → List (List ℕ) → List (List ℕ) → List (List ℕ)
squash rooted st [] = st
squash rooted st (s ∷ ss) = squash rooted (push rooted st s) ss

unfoldable pub clean : List ℕ → List ℕ
clean p =
    let rooted = has_prefix (slash ∷ []) p in
    let body = join (reverse (squash rooted [] (split p))) in
    if rooted then slash ∷ body else if list_eq body [] then dot else body
