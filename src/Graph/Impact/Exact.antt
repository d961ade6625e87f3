-- ===== src/Graph/Impact/Exact.antt =====
-- The result of `Impact` (engine/ax/internal/taskgraph/model.go) against the tasks that changed and
-- those that depend on them.

use task_a.Prelude.{
  String, suc, true, ◌||◌, List, [], ◌∷◌, map, Map, lookup, lookup-nil, insert, lookup-insert_self,
  lookup-insert_ne, elem, some, length, if◌then◌else◌, ◌==◌, eq_iff, eq_refl, eq_false, ◌≡◌, ◌≢◌,
  ◌↔◌, refl, sym, ap, Memᴰ, map-mem, arith, Bool-cases, String-cases, inl, inr, ◌⊎◌, subst, ◌∙◌,
}
use task_a.Graph.Model.{Plan, Node}
use task_a.Graph.Validate.Visit.{input_tasks}
use task_a.Graph.Validate.Nodes.{IsDistinct}
use task_a.Graph.Validate.Registry.{node_id}
use task_a.Graph.Impact.{
  spread, insert_sorted, sort, prior_digests, differs, mark, mark_changed, impact,
}
use task_a.Graph.Impact.Spread.{IsClosed, unmarked-le-length, spread_total, spread_inv}

elem-insert_sorted :
    (x s : String) (ts : List String) → elem x (insert_sorted s ts) ≡ (s == x || elem x ts)
unfolding insert_sorted
elem-insert_sorted x s [] = refl
elem-insert_sorted x s (t ∷ ts) = ground (arith, elem-insert_sorted x s ts)

elem-sort : (x : String) (ss : List String) → elem x (sort ss) ≡ elem x ss
unfolding sort
elem-sort x [] = refl
elem-sort x (s ∷ ss) = rw (elem-insert_sorted, elem-sort x ss)

find_id :
    (id : String) (ns : List Node)
    → ((m : Node) × Memᴰ m ns × (m.id ≡ id)) ⊎ ((m : Node) → Memᴰ m ns → m.id ≢ id)
find_id id [] = inr (λ m k. elim k [ ])
find_id id (n ∷ ns) = elim (String-cases n.id id) [
  | inl p ↦ inl (n, Memᴰ.head refl, p.0)
  | inr p ↦ elim (find_id id ns) [
    | inl (m, k, e) ↦ inl (m, Memᴰ.tail k, e)
    | inr f ↦ inr (other p.0 f)
  ]
]
  where
    other :
        n.id ≢ id → ((m : Node) → Memᴰ m ns → m.id ≢ id) → (m : Node) → Memᴰ m (n ∷ ns) → m.id ≢ id
    other h f m (Memᴰ.head e) q = h (ap (λ (x : Node). x.id) (sym e) ∙ q)
    other h f m (Memᴰ.tail k) q = f m k q

module _ (digest : Node → String) where
  prior_other :
      (ns : List Node) (prior : Map String) (id : String)
      → ((m : Node) → Memᴰ m ns → m.id ≢ id)
      → lookup id (prior_digests digest ns prior) ≡ lookup id prior
  unfolding prior_digests
  prior_other [] prior id h = refl
  prior_other (n ∷ ns) prior id h =
      prior_other ns (insert n.id (digest n) prior) id (λ m k. h m (Memᴰ.tail k))
      ∙ lookup-insert_ne n.id id (digest n) prior (h n (Memᴰ.head refl))

  prior_found :
      (ns : List Node) (prior : Map String) (m : Node)
      → IsDistinct (map node_id ns)
      → Memᴰ m ns
      → lookup m.id (prior_digests digest ns prior) ≡ some (digest m)
  unfolding prior_digests
  prior_found [] prior m d k = elim k [ ]
  prior_found (n ∷ ns) prior m d (Memᴰ.head e) =
      subst (λ (x : Node). lookup x.id (prior_digests digest (n ∷ ns) prior) ≡ some (digest x))
        (sym e)
        (prior_other ns (insert n.id (digest n) prior) n.id
            (λ x k q. d.0 (subst (λ i. Memᴰ i (map node_id ns)) q (map-mem node_id ns k)))
          ∙ lookup-insert_self n.id (digest n) prior)
  prior_found (n ∷ ns) prior m d (Memᴰ.tail k) =
      prior_found ns (insert n.id (digest n) prior) m d.1 k

  -- No task of the old plan has the id and the digest of `n`.
  abbrev pub Changed : List Node → Node → Type 0
  Changed old n = (m : Node) → Memᴰ m old → m.id ≡ n.id → digest m ≢ digest n

  -- The task has changed, or one of its inputs comes from an affected task.
  pub data Affected (old next : List Node) : String → Type 0 where
    changed : (n : Node) → Memᴰ n next → Changed old n → Affected old next n.id
    through :
        (n : Node) (d : String)
        → Memᴰ n next
        → Memᴰ d (input_tasks n.inputs)
        → Affected old next d
        → Affected old next n.id

  module _ (old : List Node) (distinct : IsDistinct (map node_id old))
      (present : (n : Node) → digest n ≢ "") where
    abbrev prior : Map String
    prior = prior_digests digest old []

    differs→Changed : (n : Node) → differs digest prior n ≡ true → Changed old n
    differs→Changed n h m k e q =
        let at : lookup n.id prior ≡ some (digest m) =
          subst (λ i. lookup i prior ≡ some (digest m)) e (prior_found old [] m distinct k) in
        ground (arith, at, h, (eq_iff (digest m) (digest n)).1 q)

    Changed→differs : (n : Node) → Changed old n → differs digest prior n ≡ true
    Changed→differs n c = elim (find_id n.id old) [
      | inl (m, k, e) ↦
          let at : lookup n.id prior ≡ some (digest m) =
            subst (λ i. lookup i prior ≡ some (digest m)) e (prior_found old [] m distinct k) in
          ground (arith, at, eq_false (digest m) (digest n) (c m k e))
      | inr f ↦ ground (
        arith,
        prior_other old [] n.id f ∙ lookup-nil {V = String} n.id,
        eq_false "" (digest n) (λ q. present n (sym q)),
      )
    ]

    mark_changed-IsAffected :
        (next ns : List Node) (a : List String)
        → ((n : Node) → Memᴰ n ns → Memᴰ n next)
        → ((x : String) → elem x a ≡ true → Affected old next x)
        → (x : String) → elem x (mark_changed digest prior ns a) ≡ true
        → Affected old next x
    unfolding mark_changed
    mark_changed-IsAffected next [] a w h = h
    mark_changed-IsAffected next (n ∷ ns) a w h =
        mark_changed-IsAffected next ns (if differs digest prior n then mark n.id a else a)
          (λ m k. w m (Memᴰ.tail k)) marked
      where
        marked :
            (x : String)
            → elem x (if differs digest prior n then mark n.id a else a) ≡ true
            → Affected old next x
        marked x e = elim (Bool-cases (differs digest prior n)) [
          | inr q ↦ h x (rw q at e)
          | inl q ↦ elim (String-cases n.id x) [
            | inl p ↦
                subst (Affected old next) p.0
                  (changed n (w n (Memᴰ.head refl)) (differs→Changed n q))
            | inr p ↦ h x (ground (arith, rw q at e, p.1))
          ]
        ]

    mark_changed-keeps :
        (ns : List Node) (a : List String) (x : String)
        → elem x a ≡ true
        → elem x (mark_changed digest prior ns a) ≡ true
    unfolding mark_changed
    mark_changed-keeps [] a x h = h
    mark_changed-keeps (n ∷ ns) a x h =
        mark_changed-keeps ns (if differs digest prior n then mark n.id a else a) x (ground arith)

    mark_changed-marks :
        (ns : List Node) (a : List String) (n : Node)
        → Memᴰ n ns
        → differs digest prior n ≡ true
        → elem n.id (mark_changed digest prior ns a) ≡ true
    unfolding mark_changed
    mark_changed-marks [] a n k h = elim k [ ]
    mark_changed-marks (m ∷ ns) a n (Memᴰ.head e) h =
        mark_changed-keeps ns (if differs digest prior m then mark m.id a else a) n.id (
          subst (λ (y : Node). elem y.id (if differs digest prior m then mark m.id a else a) ≡ true)
            (sym e)
            (ground (arith, eq_refl m.id, subst (λ (y : Node). differs digest prior y ≡ true) e h)))
    mark_changed-marks (m ∷ ns) a n (Memᴰ.tail k) h =
        mark_changed-marks ns (if differs digest prior m then mark m.id a else a) n k h

    module _ (next : Plan) where
      abbrev start : List String
      start = mark_changed digest prior next.tasks []

      -- The marks from which the loop starts, closed under dependence, are the affected tasks.
      closed_exact :
          (a : List String)
          → ((x : String) → elem x a ≡ true → Affected old next.tasks x)
          → ((x : String) → elem x start ≡ true → elem x a ≡ true)
          → IsClosed next.tasks a
          → (x : String) → (elem x a ≡ true) ↔ Affected old next.tasks x
      closed_exact a only from closed x = (only x, complete x)
        where
          complete : (y : String) → Affected old next.tasks y → elem y a ≡ true
          complete y (changed n m c) =
              from n.id (mark_changed-marks next.tasks [] n m (Changed→differs n c))
          complete y (through n d m k aff) = closed n d m k (complete d aff)

      loop_exact :
          (a : List String)
          → spread (suc (length next.tasks)) next.tasks start ≡ some a
          → (x : String) → (elem x a ≡ true) ↔ Affected old next.tasks x
      loop_exact a done =
          let (only, closed) =
            spread_inv next.tasks (λ b. (x : String) → elem x b ≡ true → Affected old next.tasks x)
              (λ n d b m k e only x q. elim (String-cases n.id x) [
                | inl p ↦ subst (Affected old next.tasks) p.0 (through n d m k (only d e))
                | inr p ↦ only x (rw p.1 at q)
              ])
              (suc (length next.tasks)) start a
              (mark_changed-IsAffected next.tasks next.tasks [] (λ n m. m) (λ x e. cc)) done in
          let (from, _) =
            spread_inv next.tasks (λ b. (x : String) → elem x start ≡ true → elem x b ≡ true)
              (λ n d b m k e from x q. ground (arith, from x q)) (suc (length next.tasks)) start a
              (λ x e. e) done in
          closed_exact a only from closed

-- `Impact` ends, and returns exactly the ids of the tasks that are new or changed, or that have an
-- input, directly or not, from such a task. The ids of the old plan are distinct, and no digest is
-- the empty text.
pub impact-Affected :
    (digest : Node → String) (old next : Plan)
    → IsDistinct (map node_id old.tasks)
    → ((n : Node) → digest n ≢ "")
    → (out : List String) × (impact digest old next ≡ some out)
      × ((x : String) → (elem x out ≡ true) ↔ Affected digest old.tasks next.tasks x)
unfolding impact
impact-Affected digest old next distinct present =
    let begin = start digest old.tasks distinct present next in
    let (a, done) =
      spread_total (suc (length next.tasks)) next.tasks begin
        (omega (arith, unmarked-le-length next.tasks begin)) in
    (
      sort a,
      rw (done, impact),
      λ x. rw elem-sort (loop_exact digest old.tasks distinct present next a done x),
    )
