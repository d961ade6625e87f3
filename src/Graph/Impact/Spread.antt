-- ===== src/Graph/Impact/Spread.antt =====
-- Lemmas on the loop of `Impact` (engine/ax/internal/taskgraph/model.go): its end, and the marked tasks.
use task_a.Prelude.{
  String, ℕ, zero, suc, ◌≤◌, ◌<◌, Bool, true, false, not, ◌&&◌, List, [], ◌∷◌, Map, elem, some,
  length, if◌then◌else◌, eq_iff, ◌≡◌, refl, sym, ap, Memᴰ, arith, Bool-cases, inl, inr, ◌⊎◌, subst,
  ◌∙◌,
}
use task_a.Graph.Model.{Node, Input}
use task_a.Graph.Validate.Visit.{input_tasks}
use task_a.Graph.Impact.{spread_input, spread_inputs, spread_nodes, spread}

-- How many of the tasks are not marked.
abbrev pub unmarked : List Node → List String → ℕ
unmarked [] a = 0
unmarked (n ∷ ns) a = if elem n.id a then unmarked ns a else suc (unmarked ns a)

unmarked-cons-le :
    (ns : List Node) (x : String) (a : List String) → unmarked ns (x ∷ a) ≤ unmarked ns a
unmarked-cons-le [] x a = omega arith
unmarked-cons-le (n ∷ ns) x a = ground (arith, unmarked-cons-le ns x a)

unmarked-cons-lt :
    (ns : List Node) (n : Node) (a : List String)
    → Memᴰ n ns
    → elem n.id a ≡ false
    → unmarked ns (n.id ∷ a) < unmarked ns a
unmarked-cons-lt [] n a m h = elim m [ ]
unmarked-cons-lt (x ∷ ns) n a (Memᴰ.head e) h =
    ground (arith, ap (λ (y : Node). y.id) e, eq_iff n.id x.id, unmarked-cons-le ns n.id a)
unmarked-cons-lt (x ∷ ns) n a (Memᴰ.tail m) h = ground (arith, unmarked-cons-lt ns n a m h)

pub unmarked-le-length : (ns : List Node) (a : List String) → unmarked ns a ≤ length ns
unmarked-le-length [] a = omega arith
unmarked-le-length (n ∷ ns) a = ground (arith, unmarked-le-length ns a)

-- What any part of a pass over the tasks `all` does to the marks and to the flag.
record Grows (all : List Node) (s t : List String × Bool) : Type 0 where
  fewer : unmarked all t.0 ≤ unmarked all s.0
  progress : t.1 ≡ true → (s.1 ≡ true) ⊎ (unmarked all t.0 < unmarked all s.0)
  quiet : t.1 ≡ false → (s.1 ≡ false) × (t.0 ≡ s.0)

Grows-refl : (all : List Node) (s : List String × Bool) → Grows all s s
Grows-refl all s = record { fewer = omega arith; progress = λ h. inl h; quiet = λ h. (h, refl) }

Grows-trans :
    {all : List Node} {s t u : List String × Bool} → Grows all s t → Grows all t u → Grows all s u
Grows-trans {all} {s} {t} {u} g h = record {
  fewer = omega (arith, g.fewer, h.fewer);
  progress = λ e. elim (h.progress e) [
    | inl q ↦ elim (g.progress q) [ inl r ↦ inl r | inr r ↦ inr (omega (arith, r, h.fewer)) ]
    | inr q ↦ inr (omega (arith, q, g.fewer))
  ];
  quiet = λ e. let (b, same) = h.quiet e in let (c, same') = g.quiet b in (c, same ∙ same');
}

spread_input-Grows :
    (all : List Node) (n : Node) (i : Input) (s : List String × Bool)
    → Memᴰ n all
    → Grows all s (spread_input n.id i s)
unfolding spread_input
spread_input-Grows all n i (a, changed) m = elim (Bool-cases (elem i.task a && not (elem n.id a))) [
  | inl e ↦
      let absent : elem n.id a ≡ false = ground arith in
      let less = unmarked-cons-lt all n a m absent in
      rw e (record { fewer = omega (arith, less); progress = λ _. inr less; quiet = λ h. cc })
  | inr e ↦ rw e (Grows-refl all (a, changed))
]

spread_inputs-Grows :
    (all : List Node) (n : Node) (is : Map Input) (s : List String × Bool)
    → Memᴰ n all
    → Grows all s (spread_inputs n.id is s)
unfolding spread_inputs
spread_inputs-Grows all n [] s m = Grows-refl all s
spread_inputs-Grows all n ((f, i) ∷ is) s m =
    Grows-trans (spread_input-Grows all n i s m)
      (spread_inputs-Grows all n is (spread_input n.id i s) m)

spread_nodes-Grows :
    (all ns : List Node) (s : List String × Bool)
    → ((n : Node) → Memᴰ n ns → Memᴰ n all)
    → Grows all s (spread_nodes ns s)
unfolding spread_nodes
spread_nodes-Grows all [] s h = Grows-refl all s
spread_nodes-Grows all (n ∷ ns) s h =
    Grows-trans (spread_inputs-Grows all n n.inputs s (h n (Memᴰ.head refl)))
      (spread_nodes-Grows all ns (spread_inputs n.id n.inputs s) (λ x m. h x (Memᴰ.tail m)))

-- With more fuel than unmarked tasks the loop ends by its own test.
pub spread_total :
    (fuel : ℕ) (ns : List Node) (a : List String)
    → unmarked ns a < fuel
    → (a' : List String) × (spread fuel ns a ≡ some a')
unfolding spread
spread_total zero ns a h = elim h [ ]
spread_total (suc fuel) ns a h =
    let g = spread_nodes-Grows ns ns (a, false) (λ n m. m) in
    elim (Bool-cases (spread_nodes ns (a, false)).1) [
      | inl e ↦
          let less : unmarked ns (spread_nodes ns (a, false)).0 < unmarked ns a =
            elim (g.progress e) [ inl q ↦ cc | inr q ↦ q ] in
          let (a', done) = spread_total fuel ns (spread_nodes ns (a, false)).0 (omega arith) in
          (a', rw e done)
      | inr e ↦ ((spread_nodes ns (a, false)).0, rw e)
    ]

-- Each task with a marked input is marked.
abbrev pub IsClosed : List Node → List String → Type 0
IsClosed ns a =
    (n : Node) (d : String)
    → Memᴰ n ns
    → Memᴰ d (input_tasks n.inputs)
    → elem d a ≡ true
    → elem n.id a ≡ true

last_input :
    (id : String) (i : Input) (s : List String × Bool)
    → (spread_input id i s).1 ≡ false
    → elem i.task s.0 ≡ true
    → elem id s.0 ≡ true
unfolding spread_input
last_input id i (a, changed) h e = ground arith

spread_inputs-quiet :
    (all : List Node) (n : Node) (is : Map Input) (s : List String × Bool)
    → Memᴰ n all
    → (spread_inputs n.id is s).1 ≡ false
    → (d : String) → Memᴰ d (input_tasks is)
    → elem d s.0 ≡ true
    → elem n.id s.0 ≡ true
unfolding spread_inputs
spread_inputs-quiet all n [] s m h d k e = elim k [ ]
spread_inputs-quiet all n ((f, i) ∷ is) s m h d k e =
    let (still, _) = (spread_inputs-Grows all n is (spread_input n.id i s) m).quiet h in
    let (_, same) = (spread_input-Grows all n i s m).quiet still in
    here k still
      (λ k'. rw same at (spread_inputs-quiet all n is (spread_input n.id i s) m h d k' (rw same e)))
  where
    here :
        Memᴰ d (i.task ∷ input_tasks is)
        → (spread_input n.id i s).1 ≡ false
        → (Memᴰ d (input_tasks is) → elem n.id s.0 ≡ true)
        → elem n.id s.0 ≡ true
    here (Memᴰ.head q) still ih = last_input n.id i s still (rw q at e)
    here (Memᴰ.tail k') still ih = ih k'

spread_nodes-quiet :
    (all ns : List Node) (s : List String × Bool)
    → ((n : Node) → Memᴰ n ns → Memᴰ n all)
    → (spread_nodes ns s).1 ≡ false
    → IsClosed ns s.0
unfolding spread_nodes
spread_nodes-quiet all [] s w h n d m k e = elim m [ ]
spread_nodes-quiet all (x ∷ ns) s w h n d m k e =
    let (still, _) =
      (spread_nodes-Grows all ns (spread_inputs x.id x.inputs s) (λ y q. w y (Memᴰ.tail q))).quiet
        h in
    let (_, same) = (spread_inputs-Grows all x x.inputs s (w x (Memᴰ.head refl))).quiet still in
    here m
      (λ q.
        subst (λ (y : Node). Memᴰ d (input_tasks y.inputs) → elem y.id s.0 ≡ true) (sym q)
          (λ k'. spread_inputs-quiet all x x.inputs s (w x (Memᴰ.head refl)) still d k' e) k)
      (λ m'. rw same at (
        spread_nodes-quiet all ns (spread_inputs x.id x.inputs s) (λ y q. w y (Memᴰ.tail q)) h n d
          m' k (rw same e)))
  where
    here :
        Memᴰ n (x ∷ ns)
        → (n ≡ x → elem n.id s.0 ≡ true)
        → (Memᴰ n ns → elem n.id s.0 ≡ true)
        → elem n.id s.0 ≡ true
    here (Memᴰ.head q) f g = f q
    here (Memᴰ.tail m') f g = g m'

module _ (all : List Node) (P : List String → Type 0)
    (step : (n : Node) (d : String) (a : List String)
      → Memᴰ n all
      → Memᴰ d (input_tasks n.inputs)
      → elem d a ≡ true
      → P a
      → P (n.id ∷ a)) where
  spread_inputs_inv :
      (n : Node) (is : Map Input) (s : List String × Bool)
      → Memᴰ n all
      → ((d : String) → Memᴰ d (input_tasks is) → Memᴰ d (input_tasks n.inputs))
      → P s.0
      → P (spread_inputs n.id is s).0
  unfolding spread_inputs spread_input
  spread_inputs_inv n [] s m w h = h
  spread_inputs_inv n ((f, i) ∷ is) s m w h =
      spread_inputs_inv n is (spread_input n.id i s) m (λ d k. w d (Memᴰ.tail k))
        (elim (Bool-cases (elem i.task s.0 && not (elem n.id s.0))) [
          | inl e ↦ rw e (step n i.task s.0 m (w i.task (Memᴰ.head refl)) (ground arith) h)
          | inr e ↦ rw e h
        ])

  spread_nodes_inv :
      (ns : List Node) (s : List String × Bool)
      → ((n : Node) → Memᴰ n ns → Memᴰ n all)
      → P s.0
      → P (spread_nodes ns s).0
  unfolding spread_nodes
  spread_nodes_inv [] s w h = h
  spread_nodes_inv (n ∷ ns) s w h =
      spread_nodes_inv ns (spread_inputs n.id n.inputs s) (λ x m. w x (Memᴰ.tail m))
        (spread_inputs_inv n n.inputs s (w n (Memᴰ.head refl)) (λ d k. k) h)

  -- What each marking keeps holds at the end, where the marks are closed.
  pub spread_inv :
      (fuel : ℕ) (a a' : List String) → P a → spread fuel all a ≡ some a' → P a' × IsClosed all a'
  unfolding spread
  spread_inv zero a a' p h = cc
  spread_inv (suc fuel) a a' p h = elim (Bool-cases (spread_nodes all (a, false)).1) [
    | inl e ↦
        spread_inv fuel (spread_nodes all (a, false)).0 a'
          (spread_nodes_inv all (a, false) (λ n m. m) p) (rw e at h)
    | inr e ↦
        let (_, same) = (spread_nodes-Grows all all (a, false) (λ n m. m)).quiet e in
        let same' : a ≡ a' = cc (rw e at h, same) in
        (
          subst P same' p,
          subst (IsClosed all) same' (spread_nodes-quiet all all (a, false) (λ n m. m) e),
        )
  ]
