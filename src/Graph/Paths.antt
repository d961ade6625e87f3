-- ===== src/Graph/Paths.antt =====
-- `validPath` of engine/ax/internal/taskgraph/model.go, with the parts of Go's `strings` and `path`
-- that it calls. A text is read as the list of its code points.
pub mod Clean
pub mod Segments
pub mod Safe
use task_a.Prelude.{
  String, ℕ, Bool, true, false, not, ◌&&◌, ◌||◌, List, [], ◌∷◌, ◌++◌, if◌then◌else◌,
}
use task_a.Prelude.{nat_eq, any, ◌≡◌, refl}
use task_a.Graph.Paths.Codes.{codes, list_eq, has_prefix, slash, dot, dot_dot, task_agent}
use task_a.Graph.Paths.Clean.{clean}
pub mod Codes

-- strings.ContainsAny(p, "\x00\\")
abbrev pub is_forbidden : ℕ → Bool
is_forbidden c = nat_eq c 0 || nat_eq c 92

unfoldable pub valid_codes : List ℕ → Bool
valid_codes p =
    not (list_eq p [])
    && not (any is_forbidden p)
    && not (has_prefix (slash ∷ []) p)
    && list_eq (clean p) p
    && not (list_eq p dot)
    && not (list_eq p dot_dot)
    && not (has_prefix (dot_dot ++ slash ∷ []) p)
    && not (list_eq p task_agent)
    && not (has_prefix (task_agent ++ slash ∷ []) p)

unfoldable pub valid_path : String → Bool
unfolding valid_codes
valid_path p = valid_codes (codes p)
