-- ===== src/Prelude/Maps.antt =====
-- A map with text keys, as the list of its entries in the order in which a loop meets them. The
-- source's order is arbitrary, so a statement about every list speaks of every order.
use Prim.Native.String.{String}
use mathlib.Core.Path.{◌≡◌, refl, sym, ap}
use mathlib.Core.Bool.{Bool, true, false}
use mathlib.Core.Option.{Option, none, some}
use mathlib.Core.List.{List, [], ◌∷◌, Memᴰ}
use mathlib.Core.Logic.{◌⊎◌, inl, inr, ◌≢◌}
use native.Mathlib.Omega.{arith}
use text.Mathlib.Text.{◌==◌}
use text.Mathlib.TextEquality.{eq_iff}
use text.Mathlib.TextPositions.{eq_refl}
use task_a.Prelude.Tests.{if◌then◌else◌, String-cases}

abbrev pub Map {ℓ} : Type ℓ → Type ℓ
Map V = List (String × V)

module _ {ℓ} {V : Type ℓ} where
  -- v, ok := m[key]
  unfoldable pub lookup : (key : String) → Map V → Option V
  lookup key [] = none
  lookup key ((first, value) ∷ rest) = if first == key then some value else lookup key rest

  -- m[key] = value
  unfoldable pub insert : (key : String) → (value : V) → Map V → Map V
  insert key value [] = (key, value) ∷ []
  insert key value ((first, old) ∷ rest) =
      if first == key then (key, value) ∷ rest else (first, old) ∷ insert key value rest

  -- delete(m, k)
  unfoldable pub delete : String → Map V → Map V
  delete k [] = []
  delete k ((j, w) ∷ m) = let rest = delete k m in if j == k then rest else (j, w) ∷ rest

  unfoldable pub has_key : String → Map V → Bool
  has_key k [] = false
  has_key k ((j, w) ∷ m) = if j == k then true else has_key k m

  pub lookup-insert :
      (key other : String) (value : V) (entries : Map V)
      → lookup other (insert key value entries)
        ≡ (if key == other then some value else lookup other entries)
  unfolding lookup insert
  lookup-insert key other value [] = refl
  lookup-insert key other value ((first, old) ∷ rest) = ground (
    arith,
    lookup-insert key other value rest,
    eq_iff key other,
    eq_iff first key,
    eq_iff first other,
  )

  pub lookup-delete :
      (k j : String) (m : Map V) → lookup j (delete k m) ≡ (if k == j then none else lookup j m)
  unfolding lookup delete
  lookup-delete k j [] = ground arith
  lookup-delete k j ((i, w) ∷ m) =
      ground (arith, eq_iff k j, eq_iff i k, eq_iff i j, lookup-delete k j m)

  pub lookup-nil : (k : String) → ◌≡◌ {A = Option V} (lookup k []) none
  unfolding lookup
  lookup-nil k = refl

  pub lookup-insert_self : (k : String) (v : V) (m : Map V) → lookup k (insert k v m) ≡ some v
  lookup-insert_self k v m = simp (lookup-insert, eq_refl)

  pub lookup-insert_ne :
      (k j : String) (v : V) (m : Map V) → k ≢ j → lookup j (insert k v m) ≡ lookup j m
  lookup-insert_ne k j v m h = elim (String-cases k j) [
    | inl p ↦ absurd (h p.0)
    | inr p ↦ rw (lookup-insert, p.1)
  ]

  pub lookup-mem : (k : String) {v : V} (m : Map V) → lookup k m ≡ some v → Memᴰ (k, v) m
  unfolding lookup
  lookup-mem k [] h = cc
  lookup-mem k {v} ((j, w) ∷ m) h = elim (String-cases j k) [
    | inl p ↦ Memᴰ.head (cc (p.0, rw p.1 at h))
    | inr p ↦ Memᴰ.tail (lookup-mem k m (rw p.1 at h))
  ]

  pub has_key-eq_lookup :
      (k : String) (m : Map V) → has_key k m ≡ (elim (lookup k m) [ none ↦ false | some _ ↦ true ])
  unfolding has_key lookup
  has_key-eq_lookup k [] = refl
  has_key-eq_lookup k ((j, w) ∷ m) = ground (arith, has_key-eq_lookup k m)

  pub insert-mem :
      (k j : String) (v w : V) (m : Map V)
      → Memᴰ (j, w) (insert k v m)
      → ((j ≡ k) × (w ≡ v)) ⊎ Memᴰ (j, w) m
  unfolding insert
  insert-mem k j v w [] (Memᴰ.head e) = inl (ap (λ x. x.0) e, ap (λ x. x.1) e)
  insert-mem k j v w [] (Memᴰ.tail h) = elim h [ ]
  insert-mem k j v w ((i, u) ∷ m) h = elim (String-cases i k) [
    | inl p ↦ replaced (rw p.1 at h)
    | inr p ↦ kept (rw p.1 at h) (λ q. insert-mem k j v w m q)
  ]
    where
      replaced : Memᴰ (j, w) ((k, v) ∷ m) → ((j ≡ k) × (w ≡ v)) ⊎ Memᴰ (j, w) ((i, u) ∷ m)
      replaced (Memᴰ.head e) = inl (ap (λ x. x.0) e, ap (λ x. x.1) e)
      replaced (Memᴰ.tail q) = inr (Memᴰ.tail q)

      later : ((j ≡ k) × (w ≡ v)) ⊎ Memᴰ (j, w) m → ((j ≡ k) × (w ≡ v)) ⊎ Memᴰ (j, w) ((i, u) ∷ m)
      later (inl e) = inl e
      later (inr q) = inr (Memᴰ.tail q)

      kept :
          Memᴰ (j, w) ((i, u) ∷ insert k v m)
          → (Memᴰ (j, w) (insert k v m) → ((j ≡ k) × (w ≡ v)) ⊎ Memᴰ (j, w) m)
          → ((j ≡ k) × (w ≡ v)) ⊎ Memᴰ (j, w) ((i, u) ∷ m)
      kept (Memᴰ.head e) ih = inr (Memᴰ.head e)
      kept (Memᴰ.tail q) ih = later (ih q)

  abbrev pub keys : Map V → List String
  keys [] = []
  keys ((j, w) ∷ m) = j ∷ keys m

module _ {ℓ} {V : Type ℓ} where
  pub lookup-keys : (k : String) (v : V) (m : Map V) → lookup k m ≡ some v → Memᴰ k (keys m)
  unfolding lookup
  lookup-keys k v [] h = cc
  lookup-keys k v ((j, w) ∷ m) h = elim (String-cases j k) [
    | inl p ↦ Memᴰ.head (sym p.0)
    | inr p ↦ Memᴰ.tail (lookup-keys k v m (rw p.1 at h))
  ]

pub ruleset map_laws = (lookup-insert, lookup-delete)
