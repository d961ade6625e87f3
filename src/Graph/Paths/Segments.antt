-- ===== src/Graph/Paths/Segments.antt =====
-- Lemmas on splitting and joining paths, for `validPath` (engine/ax/internal/taskgraph/model.go).
use task_a.Prelude.{
  ℕ, false, ◌||◌, List, [], ◌∷◌, ◌++◌, if◌then◌else◌, nat_eq, ◌≡◌, ◌≢◌, refl, All, arith,
  Bool-cases, inl, inr,
}
use task_a.Graph.Paths.Codes.{list_eq, has_prefix, slash}
use task_a.Graph.Paths.Clean.{split, join}

abbrev pub NoSlash : List ℕ → Type 0
NoSlash s = All (λ c. nat_eq c slash ≡ false) s

abbrev pub first : List ℕ → List ℕ
first [] = []
first (c ∷ p) = if nat_eq c slash then [] else c ∷ first p

abbrev pub later : List ℕ → List (List ℕ)
later [] = []
later (c ∷ p) = if nat_eq c slash then split p else later p

pub split-eq : (p : List ℕ) → split p ≡ first p ∷ later p
unfolding split
split-eq [] = refl
split-eq (c ∷ p) = elim (Bool-cases (nat_eq c slash)) [ inl e ↦ rw e | inr e ↦ rw (e, split-eq p) ]

pub split-ne-nil : (p : List ℕ) → split p ≢ []
split-ne-nil p h = cc (split-eq p)

pub first-NoSlash : (p : List ℕ) → NoSlash (first p)
first-NoSlash [] = tt
first-NoSlash (c ∷ p) = elim (Bool-cases (nat_eq c slash)) [
  | inl e ↦ rw e tt
  | inr e ↦ rw e (e, first-NoSlash p)
]

pub later-NoSlash : (p : List ℕ) → All NoSlash (later p)
later-NoSlash [] = tt
later-NoSlash (c ∷ p) = elim (Bool-cases (nat_eq c slash)) [
  | inl e ↦ rw (e, split-eq p) (first-NoSlash p, later-NoSlash p)
  | inr e ↦ rw e (later-NoSlash p)
]

join-cons_head : (c : ℕ) (s : List ℕ) (ss : List (List ℕ)) → join ((c ∷ s) ∷ ss) ≡ c ∷ join (s ∷ ss)
unfolding join
join-cons_head c s [] = refl
join-cons_head c s (t ∷ r) = refl

join-first : (p : List ℕ) → join (first p ∷ later p) ≡ p
unfolding join
join-first [] = refl
join-first (c ∷ p) = elim (Bool-cases (nat_eq c slash)) [
  | inl e ↦ let e' : c ≡ slash = ground arith in rw (e, split-eq p) (rw (join-first p) (rw e'))
  | inr e ↦ rw (e, join-cons_head, join-first p)
]

pub join-split : (p : List ℕ) → join (split p) ≡ p
join-split p = rw (split-eq p) (join-first p)

pub split_of_NoSlash : (s : List ℕ) → NoSlash s → split s ≡ s ∷ []
unfolding split
split_of_NoSlash [] h = refl
split_of_NoSlash (c ∷ s) h = rw (h.0, split_of_NoSlash s h.1)

pub split-append : (s r : List ℕ) → NoSlash s → split (s ++ (slash ∷ r)) ≡ s ∷ split r
unfolding split
split-append [] r h = refl
split-append (c ∷ s) r h = rw (h.0, split-append s r h.1)

pub split-join :
    (s : List ℕ) (ss : List (List ℕ)) → NoSlash s → All NoSlash ss → split (join (s ∷ ss)) ≡ s ∷ ss
unfolding join
split-join s [] h k = split_of_NoSlash s h
split-join s (t ∷ r) h k = rw (split-append s (join (t ∷ r)) h, split-join t r k.0 k.1)

-- `p == w || strings.HasPrefix(p, w + "/")` says that the first segment is `w`.
pub first_segment :
    (w p : List ℕ)
    → NoSlash w
    → (list_eq p w || has_prefix (w ++ (slash ∷ [])) p) ≡ list_eq (first p) w
unfolding list_eq has_prefix
first_segment [] [] h = refl
first_segment [] (c ∷ p) h = ground arith
first_segment (d ∷ w) [] h = refl
first_segment (d ∷ w) (c ∷ p) h = ground (arith, first_segment w p)
