-- ===== src/Graph/Validate/Bound.antt =====
-- Lemmas on the bound of the search of `Validate` and on the cycle that it reports
-- (engine/ax/internal/taskgraph/model.go).
use mathlib.Core.WellFounded.{Acc}
use task_a.Prelude.{
  String, ℕ, zero, suc, ◌≤◌, ◌<◌, Bool, true, false, List, [], ◌∷◌, Map, lookup, insert, keys, none,
  Result, ok, err, >>=-eq-err, length, if◌then◌else◌, ◌≡◌, ◌≢◌, refl, eq_iff, lookup-keys, Memᴰ,
  arith, Bool-cases, String-cases, Option-cases, inl, inr, subst,
}
use task_a.Graph.Model.{Node}
use task_a.Graph.Validate.Visit.{
  Error, dependency_cycle, out_of_fuel, Marks, is_set, deps_of, visit_all, enter, leave, visit,
}
use task_a.Graph.Validate.Cycles.{is_set-insert, Needs, VisitCloses, visit-SameOpen}

-- How many of the keys have no open visit.
abbrev pub closed : List String → Map Bool → ℕ
closed [] open_visits = 0
closed (k ∷ ks) open_visits =
    if is_set k open_visits then closed ks open_visits else suc (closed ks open_visits)

closed-same :
    (ks : List String) (a b : Map Bool)
    → ((x : String) → is_set x a ≡ is_set x b)
    → closed ks a ≡ closed ks b
closed-same [] a b h = refl
closed-same (k ∷ ks) a b h = ground (arith, h k, closed-same ks a b h)

closed-insert-le :
    (d : String) (ks : List String) (a : Map Bool) → closed ks (insert d true a) ≤ closed ks a
closed-insert-le d [] a = omega arith
closed-insert-le d (k ∷ ks) a = ground (arith, is_set-insert d k true a, closed-insert-le d ks a)

closed-insert-lt :
    (d : String) (ks : List String) (a : Map Bool)
    → Memᴰ d ks
    → is_set d a ≡ false
    → closed ks (insert d true a) < closed ks a
closed-insert-lt d [] a m h = elim m [ ]
closed-insert-lt d (k ∷ ks) a (Memᴰ.head e) h =
    ground (arith, e, eq_iff d k, is_set-insert d k true a, closed-insert-le d ks a)
closed-insert-lt d (k ∷ ks) a (Memᴰ.tail m) h =
    ground (arith, is_set-insert d k true a, closed-insert-lt d ks a m)

pub closed-le-length : (ks : List String) (a : Map Bool) → closed ks a ≤ length ks
closed-le-length [] a = omega arith
closed-le-length (k ∷ ks) a = ground (arith, closed-le-length ks a)

-- A chain of steps of `R`, of length one or more, from `x` down to `d`.
pub data Chain (R : String → String → Type 0) (d : String) : String → Type 0 where
  step : {x : String} → R d x → Chain R d x
  more : {x y : String} → Chain R d y → R y x → Chain R d x

module _ {R : String → String → Type 0} where
  Chain-append : {d e x : String} → Chain R e x → R d e → Chain R d x
  Chain-append (step s) n = more (step n) s
  Chain-append (more c s) n = more (Chain-append c n) s

  -- What stands below itself is not well-founded.
  pub Acc-irreflexive : {x : String} → Acc R x → Chain R x x → ⊥
  Acc-irreflexive (Acc.intro x below) (step s) = Acc-irreflexive (below x s) (step s)
  Acc-irreflexive (Acc.intro x below) (more {y = y} c n) =
      Acc-irreflexive (below y n) (Chain-append c n)

  pub Chain-map :
      {S : String → String → Type 0} {d x : String}
      → ((y z : String) → R y z → S y z)
      → Chain R d x
      → Chain S d x
  Chain-map f (step s) = step (f _ _ s)
  Chain-map f (more c s) = more (Chain-map f c) (f _ _ s)

module _ (nodes : Map Node) where
  abbrev pub Suffices : ℕ → (String → Marks → Result Error Marks) → Type 0
  Suffices fuel v =
      (d : String) (m : Marks) → closed (keys nodes) m.visiting < fuel → v d m ≢ err out_of_fuel

  pub visit_all-Suffices :
      (fuel : ℕ) (v : String → Marks → Result Error Marks)
      → VisitCloses nodes v
      → Suffices fuel v
      → (ds : List String) (m : Marks) → closed (keys nodes) m.visiting < fuel
      → visit_all v ds m ≢ err out_of_fuel
  unfolding visit_all
  visit_all-Suffices fuel v cv sv [] m h e = cc
  visit_all-Suffices fuel v cv sv (d ∷ ds) m h e = elim (>>=-eq-err (v d m) (visit_all v ds) e) [
    | inl stop ↦ sv d m h stop
    | inr (m₁, first, rest) ↦
        visit_all-Suffices fuel v cv sv ds m₁
          (omega (arith, h, closed-same (keys nodes) m₁.visiting m.visiting (cv d m m₁ first))) rest
  ]

  deps_of_missing : (d : String) → lookup d nodes ≡ none → deps_of nodes d ≡ []
  unfolding deps_of
  deps_of_missing d e = rw (e, deps_of)

  visit_all-nil : (v : String → Marks → Result Error Marks) (m : Marks) → visit_all v [] m ≡ ok m
  unfolding visit_all
  visit_all-nil v m = refl

  pub visit-Suffices : (fuel : ℕ) → Suffices fuel (visit fuel nodes)
  unfolding visit
  visit-Suffices zero d m h e = elim h [ ]
  visit-Suffices (suc fuel) d m h e = elim (Bool-cases (is_set d m.visiting)) [
    | inl v ↦ cc (rw v at e)
    | inr v ↦ elim (Bool-cases (is_set d m.done)) [
      | inl q ↦ cc (rw (v, q) at e)
      | inr q ↦
          elim (>>=-eq-err (visit_all (visit fuel nodes) (deps_of nodes d) (enter d m))
            (λ m₂. ok (leave d m₂)) (rw (v, q) at e)) [
              | inr (m₁, first, rest) ↦ cc
              | inl stop ↦ elim (Option-cases (lookup d nodes)) [
                | inl none_here ↦ cc (
                  visit_all-nil (visit fuel nodes) (enter d m),
                  rw (deps_of_missing d none_here) at stop,
                )
                | inr (n, here) ↦
                    visit_all-Suffices fuel (visit fuel nodes) (visit-SameOpen nodes fuel)
                      (visit-Suffices fuel) (deps_of nodes d) (enter d m)
                      (omega (
                        arith,
                        h,
                        closed-insert-lt d (keys nodes) m.visiting (lookup-keys d n nodes here) v,
                      ))
                      stop
              ]
            ]
    ]
  ]

  abbrev pub Above : String → Marks → Type 0
  Above d m = (y : String) → is_set y m.visiting ≡ true → Chain (Needs nodes) d y

  abbrev pub Reports : (String → Marks → Result Error Marks) → Type 0
  Reports v =
      (d x : String) (m : Marks)
      → Above d m
      → v d m ≡ err (dependency_cycle x)
      → Chain (Needs nodes) x x

  pub visit_all-Reports :
      (v : String → Marks → Result Error Marks)
      → VisitCloses nodes v
      → Reports v
      → (x : String) (ds : List String) (m : Marks) → ((d : String) → Memᴰ d ds → Above d m)
      → visit_all v ds m ≡ err (dependency_cycle x)
      → Chain (Needs nodes) x x
  unfolding visit_all
  visit_all-Reports v cv rv x [] m h e = cc
  visit_all-Reports v cv rv x (d ∷ ds) m h e = elim (>>=-eq-err (v d m) (visit_all v ds) e) [
    | inl stop ↦ rv d x m (h d (Memᴰ.head refl)) stop
    | inr (m₁, first, rest) ↦
        visit_all-Reports v cv rv x ds m₁
          (λ d' k y o. h d' (Memᴰ.tail k) y (rw (cv d m m₁ first y) at o)) rest
  ]

  pub visit-Reports : (fuel : ℕ) → Reports (visit fuel nodes)
  unfolding visit
  visit-Reports zero d x m h e = cc
  visit-Reports (suc fuel) d x m h e = elim (Bool-cases (is_set d m.visiting)) [
    | inl v ↦
        let same : d ≡ x = cc (rw v at e) in
        subst (λ (z : String). Chain (Needs nodes) z z) same (h d v)
    | inr v ↦ elim (Bool-cases (is_set d m.done)) [
      | inl q ↦ cc (rw (v, q) at e)
      | inr q ↦
          elim (>>=-eq-err (visit_all (visit fuel nodes) (deps_of nodes d) (enter d m))
            (λ m₂. ok (leave d m₂)) (rw (v, q) at e)) [
              | inr (m₁, first, rest) ↦ cc
              | inl stop ↦
                  visit_all-Reports (visit fuel nodes) (visit-SameOpen nodes fuel)
                    (visit-Reports fuel) x (deps_of nodes d) (enter d m)
                    (λ d' k y o. below d' k y o) stop
            ]
    ]
  ]
    where
      below :
          (d' : String)
          → Needs nodes d' d
          → (y : String) → is_set y (insert d true m.visiting) ≡ true
          → Chain (Needs nodes) d' y
      below d' k y o = elim (String-cases d y) [
        | inl p ↦ subst (Chain (Needs nodes) d') p.0 (step k)
        | inr p ↦ Chain-append (h y (rw (is_set-insert, p.1) at o)) k
      ]
