-- ===== src/Prelude/Lists.antt =====
-- Lists over the native numbers, and searches in lists.
use Prim.Native.Nat.{ℕ, suc, ◌+◌}
use Prim.Native.String.{String}
use mathlib.Core.Path.{◌≡◌, refl, ap, sym}
use mathlib.Core.Logic.{inl, inr}
use mathlib.Core.Bool.{Bool, true, false, ◌&&◌, ◌||◌}
use mathlib.Core.List.{List, [], ◌∷◌, ◌++◌, Memᴰ, map}
use native.Mathlib.Omega.{arith}
use text.Mathlib.Text.{◌==◌}
use text.Mathlib.TextEquality.{eq_iff}
use task_a.Prelude.Tests.{Bool-cases}

module _ {ℓ} {A : Type ℓ} where
  abbrev pub length : List A → ℕ
  length [] = 0
  length (x ∷ xs) = suc (length xs)

  abbrev pub All {κ} : (A → Type κ) → List A → Type κ
  All P [] = Unit
  All P (x ∷ xs) = P x × All P xs

  -- The library's `all` and `any` cannot be run.
  abbrev pub all : (A → Bool) → List A → Bool
  all p [] = true
  all p (x ∷ xs) = p x && all p xs

  abbrev pub any : (A → Bool) → List A → Bool
  any p [] = false
  any p (x ∷ xs) = p x || any p xs

  pub length-append : (xs ys : List A) → length (xs ++ ys) ≡ length xs + length ys
  length-append [] ys = omega arith
  length-append (x ∷ xs) ys = omega (arith, length-append xs ys)

  pub All-mem {κ} : (P : A → Type κ) {x : A} (xs : List A) → All P xs → Memᴰ x xs → P x
  All-mem P [] h m = elim m [ ]
  All-mem P (y ∷ xs) h (Memᴰ.head e) = rw e h.0
  All-mem P (y ∷ xs) h (Memᴰ.tail m) = All-mem P xs h.1 m

  pub All-of_mem {κ} : {P : A → Type κ} (xs : List A) → ((x : A) → Memᴰ x xs → P x) → All P xs
  All-of_mem [] h = tt
  All-of_mem (x ∷ xs) h = (h x (Memᴰ.head refl), All-of_mem xs (λ y m. h y (Memᴰ.tail m)))

  pub all-mem : (p : A → Bool) {x : A} (xs : List A) → all p xs ≡ true → Memᴰ x xs → p x ≡ true
  all-mem p [] h m = elim m [ ]
  all-mem p (y ∷ xs) h (Memᴰ.head e) = rw e (ground arith)
  all-mem p (y ∷ xs) h (Memᴰ.tail m) = all-mem p xs (ground arith) m

  pub all-of_mem :
      (p : A → Bool) (xs : List A) → ((x : A) → Memᴰ x xs → p x ≡ true) → all p xs ≡ true
  all-of_mem p [] h = refl
  all-of_mem p (x ∷ xs) h = rw (h x (Memᴰ.head refl)) (all-of_mem p xs (λ y m. h y (Memᴰ.tail m)))

  pub any-mem : (p : A → Bool) (xs : List A) → any p xs ≡ true → (x : A) × Memᴰ x xs × (p x ≡ true)
  any-mem p [] h = cc
  any-mem p (x ∷ xs) h = elim (Bool-cases (p x)) [
    | inl e ↦ (x, Memᴰ.head refl, e)
    | inr e ↦ let (y, m, q) = any-mem p xs (rw e at h) in (y, Memᴰ.tail m, q)
  ]

  pub any-of_mem : (p : A → Bool) {x : A} (xs : List A) → Memᴰ x xs → p x ≡ true → any p xs ≡ true
  any-of_mem p [] m h = elim m [ ]
  any-of_mem p (y ∷ xs) (Memᴰ.head e) h = rw (← e, h)
  any-of_mem p (y ∷ xs) (Memᴰ.tail m) h = ground (arith, any-of_mem p xs m h)

-- Membership of a text, as a test.
abbrev pub elem : String → List String → Bool
elem s [] = false
elem s (x ∷ xs) = x == s || elem s xs

pub elem-mem : (s : String) (xs : List String) → elem s xs ≡ true → Memᴰ s xs
elem-mem s [] h = cc
elem-mem s (x ∷ xs) h = elim (Bool-cases (x == s)) [
  | inl e ↦ Memᴰ.head (sym ((eq_iff x s).0 e))
  | inr e ↦ Memᴰ.tail (elem-mem s xs (rw e at h))
]

pub elem-of_mem : (s : String) (xs : List String) → Memᴰ s xs → elem s xs ≡ true
elem-of_mem s [] m = elim m [ ]
elem-of_mem s (x ∷ xs) (Memᴰ.head e) = rw ((eq_iff x s).1 (sym e))
elem-of_mem s (x ∷ xs) (Memᴰ.tail m) = ground (arith, elem-of_mem s xs m)

module _ {ℓ κ} {A : Type ℓ} {B : Type κ} where
  pub map-mem : {x : A} (f : A → B) (xs : List A) → Memᴰ x xs → Memᴰ (f x) (map f xs)
  map-mem f [] m = elim m [ ]
  map-mem f (y ∷ xs) (Memᴰ.head e) = Memᴰ.head (ap f e)
  map-mem f (y ∷ xs) (Memᴰ.tail m) = Memᴰ.tail (map-mem f xs m)

  pub mem-map :
      {y : B} (f : A → B) (xs : List A) → Memᴰ y (map f xs) → (x : A) × Memᴰ x xs × (y ≡ f x)
  mem-map f [] m = elim m [ ]
  mem-map f (x ∷ xs) (Memᴰ.head e) = (x, Memᴰ.head refl, e)
  mem-map f (x ∷ xs) (Memᴰ.tail m) = let (z, n, e) = mem-map f xs m in (z, Memᴰ.tail n, e)
