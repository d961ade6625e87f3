-- ===== src/Graph/Paths/Codes.antt =====
-- Texts as lists of code points, and the tests of Go's `strings` package on them.
use task_a.Prelude.{String, ℕ, code, Bool, true, false, ◌&&◌, List, [], ◌∷◌}
use task_a.Prelude.{nat_eq, ◌≡◌, refl, arith}

abbrev pub codes : String → List ℕ
codes String.[] = []
codes (String.◌∷◌ c s) = code c ∷ codes s

abbrev pub slash : ℕ
slash = 47

abbrev pub dot : List ℕ
dot = 46 ∷ []

abbrev pub dot_dot : List ℕ
dot_dot = 46 ∷ 46 ∷ []

-- ".task-agent"
abbrev pub task_agent : List ℕ
task_agent = codes ".task-agent"

unfoldable pub list_eq : List ℕ → List ℕ → Bool
list_eq [] [] = true
list_eq [] (d ∷ ds) = false
list_eq (c ∷ cs) [] = false
list_eq (c ∷ cs) (d ∷ ds) = nat_eq c d && list_eq cs ds

-- strings.HasPrefix, its arguments the other way round
unfoldable pub has_prefix : List ℕ → List ℕ → Bool
has_prefix [] p = true
has_prefix (c ∷ w) [] = false
has_prefix (c ∷ w) (d ∷ p) = nat_eq c d && has_prefix w p

pub list_eq_sound : (p q : List ℕ) → list_eq p q ≡ true → p ≡ q
unfolding list_eq
list_eq_sound [] [] h = refl
list_eq_sound [] (d ∷ ds) h = cc
list_eq_sound (c ∷ cs) [] h = cc
list_eq_sound (c ∷ cs) (d ∷ ds) h = ground (arith, list_eq_sound cs ds)

pub list_eq_refl : (p : List ℕ) → list_eq p p ≡ true
unfolding list_eq
list_eq_refl [] = refl
list_eq_refl (c ∷ cs) = ground (arith, list_eq_refl cs)

pub list_eq-of_eq : (p q : List ℕ) → p ≡ q → list_eq p q ≡ true
list_eq-of_eq p q e = rw e (list_eq_refl q)
