-- ===== src/Ax/Memory/Pages.antt =====
-- The pages of `ListTasks` (engine/ax/internal/store/memory/store.go).
use task_a.Prelude.{
  ℕ, zero, suc, ◌+◌, ◌-◌, ◌^◌, ◌≤◌, ◌<◌, pos, true, false, List, [], ◌∷◌, none, some, ltb, leb,
  length, ◌≡◌, refl, arith, Bool-cases, ap, inl, inr,
}
use task_a.Ax.Memory.{add64, slice, page, drop, take}

module _ {A : Type 0} where
  take_all : (xs : List A) → take (length xs) xs ≡ xs
  take_all [] = refl
  take_all (x ∷ xs) = cc (take_all xs)

  take_nil : (n : ℕ) → take {A = A} n [] ≡ []
  take_nil zero = refl
  take_nil (suc n) = refl

  take_past : (n : ℕ) (xs : List A) → length xs ≤ n → take n xs ≡ xs
  take_past n [] h = take_nil n
  take_past zero (x ∷ xs) h = absurd (omega (arith, h))
  take_past (suc n) (x ∷ xs) h = cc (take_past n xs (omega (arith, h)))

  -- A slice up to `e`, for `e = a + l`, is `l` entries from `a` on.
  drop-take : (a e l : ℕ) (xs : List A) → e ≡ a + l → drop a (take e xs) ≡ take l (drop a xs)
  drop-take zero e l xs h = ap (λ k. take k xs) (omega (arith, h))
  drop-take (suc a) e l [] h = cc (take_nil e, take_nil l)
  drop-take (suc a) zero l (x ∷ xs) h = absurd (omega (arith, h))
  drop-take (suc a) (suc e) l (x ∷ xs) h = drop-take a e l xs (omega (arith, h))

  length-drop : (n : ℕ) (xs : List A) → length (drop n xs) ≤ length xs - n
  length-drop zero xs = omega arith
  length-drop (suc n) [] = omega arith
  length-drop (suc n) (x ∷ xs) = omega (arith, length-drop n xs)

  drop_past : (n : ℕ) (xs : List A) → length xs ≤ n → drop n xs ≡ []
  drop_past zero [] h = refl
  drop_past zero (x ∷ xs) h = absurd (omega (arith, h))
  drop_past (suc n) [] h = refl
  drop_past (suc n) (x ∷ xs) h = drop_past n xs (omega (arith, h))

  -- Of a limit and an offset whose sum fits 64 bits, `ListTasks` returns the entries from the offset on,
  -- as many as the limit.
  pub page-fits :
      (limit offset : ℕ) (xs : List A)
      → 0 < limit
      → offset + limit < 2 ^ 63
      → page (pos limit) (pos offset) xs ≡ some (take limit (drop offset xs))
  unfolding page add64 slice
  page-fits zero offset xs h fit = absurd (omega (arith, h))
  page-fits (suc limit) offset xs h fit =
      let sum : ltb (offset + suc limit) (2 ^ 63) ≡ true = ground (arith, fit) in
      elim (Bool-cases (leb (length xs) offset)) [
        | inl p ↦ rw (p, drop_past offset xs (ground (arith, p))) refl
        | inr p ↦ elim (Bool-cases (ltb (length xs) (offset + suc limit))) [
          | inl q ↦
              let start : leb offset (length xs) ≡ true = ground (arith, p) in
              rw
                (
                  p,
                  sum,
                  q,
                  start,
                  take_all xs,
                  take_past (suc limit) (drop offset xs)
                      (omega (arith, length-drop offset xs, past (length xs) q)),
                )
                refl
          | inr q ↦
              let start : leb offset (offset + suc limit) ≡ true = ground arith in
              rw (p, sum, q, start, drop-take offset (offset + suc limit) (suc limit) xs refl) refl
        ]
      ]
    where
      past : (n : ℕ) → ltb n (offset + suc limit) ≡ true → n < offset + suc limit
      past n q = ground (arith, q)

  -- Where the sum does not fit and the offset is within the list, the slice is out of range: a panic.
  pub page-overflow :
      (limit offset : ℕ) (xs : List A)
      → offset < length xs
      → limit < 2 ^ 63
      → offset < 2 ^ 63
      → 2 ^ 63 ≤ offset + limit
      → page (pos limit) (pos offset) xs ≡ none
  unfolding page add64 slice
  page-overflow zero offset xs inside small small' big = absurd (omega (arith, small', big))
  page-overflow (suc limit) offset xs inside small small' big =
      let sum : ltb (offset + suc limit) (2 ^ 63) ≡ false = ground (arith, big) in
      let start : leb (length xs) offset ≡ false = ground (arith, inside) in rw (start, sum) refl
