-- ===== src/Graph/Validate/Cycles.antt =====
-- Lemmas on the search of `Validate` (engine/ax/internal/taskgraph/model.go) and the dependencies of the
-- nodes that it visits.
use task_a.Prelude.{
  String, ℕ, zero, suc, Bool, true, false, List, [], ◌∷◌, Map, insert, Result, ok, >>=-eq-ok,
  ok-injective, if◌then◌else◌, ◌≡◌, sym, ◌∙◌, ◌==◌, eq_iff, lookup-insert, Memᴰ, arith, Bool-cases,
  String-cases, inl, inr, subst,
}
use mathlib.Core.WellFounded.{Acc}
use task_a.Graph.Model.{Node}
use task_a.Graph.Validate.Visit.{Error, Marks, is_set, deps_of, visit_all, enter, leave, visit}

pub is_set-insert :
    (k j : String) (b : Bool) (m : Map Bool)
    → is_set j (insert k b m) ≡ (if k == j then b else is_set j m)
unfolding is_set
is_set-insert k j b m = ground (arith, lookup-insert k j b m)

module _ (nodes : Map Node) where
  -- `d` is a dependency of `x`.
  abbrev pub Needs : String → String → Type 0
  Needs d x = Memᴰ d (deps_of nodes x)

  -- What is done has well-founded dependencies.
  abbrev pub IsSound : Marks → Type 0
  IsSound m = (x : String) → is_set x m.done ≡ true → Acc Needs x

  enter-IsSound : (id : String) (m : Marks) → IsSound m → IsSound (enter id m)
  enter-IsSound id m s = s

  leave-IsSound : (id : String) (m : Marks) → IsSound m → Acc Needs id → IsSound (leave id m)
  leave-IsSound id m s a x h = elim (String-cases id x) [
    | inl p ↦ subst (Acc Needs) p.0 a
    | inr p ↦ s x (rw (is_set-insert, p.1) at h)
  ]

  abbrev pub VisitSound : (String → Marks → Result Error Marks) → Type 0
  VisitSound v = (d : String) (m m' : Marks) → IsSound m → v d m ≡ ok m' → IsSound m' × Acc Needs d

  pub visit_all-IsSound :
      (v : String → Marks → Result Error Marks)
      → VisitSound v
      → (ds : List String) (m m' : Marks) → IsSound m
      → visit_all v ds m ≡ ok m'
      → IsSound m' × ((d : String) → Memᴰ d ds → Acc Needs d)
  unfolding visit_all
  visit_all-IsSound v sv [] m m' s h = (subst IsSound (ok-injective h) s, λ d k. elim k [ ])
  visit_all-IsSound v sv (d ∷ ds) m m' s h =
      let (m₁, first, rest) = >>=-eq-ok (v d m) (visit_all v ds) h in
      let (s₁, a) = sv d m m₁ s first in
      let (s₂, accs) = visit_all-IsSound v sv ds m₁ m' s₁ rest in (s₂, λ x k. mem-cases x k a accs)
    where
      mem-cases :
          (x : String)
          → Memᴰ x (d ∷ ds)
          → Acc Needs d
          → ((y : String) → Memᴰ y ds → Acc Needs y)
          → Acc Needs x
      mem-cases x (Memᴰ.head e) a accs = subst (Acc Needs) (sym e) a
      mem-cases x (Memᴰ.tail k) a accs = accs x k

  pub visit-IsSound : (fuel : ℕ) → VisitSound (visit fuel nodes)
  unfolding visit
  visit-IsSound zero d m m' s h = cc
  visit-IsSound (suc fuel) d m m' s h = elim (Bool-cases (is_set d m.visiting)) [
    | inl e ↦ cc (rw e at h)
    | inr e ↦ elim (Bool-cases (is_set d m.done)) [
      | inl q ↦ (subst IsSound (ok-injective (rw (e, q) at h)) s, s d q)
      | inr q ↦
          let (m₁, inner, out) =
            >>=-eq-ok (visit_all (visit fuel nodes) (deps_of nodes d) (enter d m))
              (λ m₂. ok (leave d m₂)) (rw (e, q) at h) in
          let (s₁, accs) =
            visit_all-IsSound (visit fuel nodes) (visit-IsSound fuel) (deps_of nodes d) (enter d m)
              m₁ s inner in
          let a : Acc Needs d = Acc.intro d accs in
          (subst IsSound (ok-injective out) (leave-IsSound d m₁ s₁ a), a)
    ]
  ]

  -- A visit that succeeds leaves the open visits as they were.
  abbrev pub SameOpen : Marks → Marks → Type 0
  SameOpen m m' = (x : String) → is_set x m'.visiting ≡ is_set x m.visiting

  abbrev pub VisitCloses : (String → Marks → Result Error Marks) → Type 0
  VisitCloses v = (d : String) (m m' : Marks) → v d m ≡ ok m' → SameOpen m m'

  pub visit_all-SameOpen :
      (v : String → Marks → Result Error Marks)
      → VisitCloses v
      → (ds : List String) (m m' : Marks) → visit_all v ds m ≡ ok m'
      → SameOpen m m'
  unfolding visit_all
  visit_all-SameOpen v cv [] m m' h x = cc
  visit_all-SameOpen v cv (d ∷ ds) m m' h x =
      let (m₁, first, rest) = >>=-eq-ok (v d m) (visit_all v ds) h in
      visit_all-SameOpen v cv ds m₁ m' rest x ∙ cv d m m₁ first x

  pub visit-SameOpen : (fuel : ℕ) → VisitCloses (visit fuel nodes)
  unfolding visit
  visit-SameOpen zero d m m' h x = cc
  visit-SameOpen (suc fuel) d m m' h x = elim (Bool-cases (is_set d m.visiting)) [
    | inl e ↦ cc (rw e at h)
    | inr e ↦ elim (Bool-cases (is_set d m.done)) [
      | inl q ↦ cc (rw (e, q) at h)
      | inr q ↦
          let (m₁, inner, out) =
            >>=-eq-ok (visit_all (visit fuel nodes) (deps_of nodes d) (enter d m))
              (λ m₂. ok (leave d m₂)) (rw (e, q) at h) in
          let same =
            visit_all-SameOpen (visit fuel nodes) (visit-SameOpen fuel) (deps_of nodes d)
              (enter d m) m₁ inner x in
          ground (
            arith,
            ok-injective out,
            same,
            e,
            is_set-insert d x false m₁.visiting,
            is_set-insert d x true m.visiting,
            eq_iff d x,
          )
    ]
  ]
