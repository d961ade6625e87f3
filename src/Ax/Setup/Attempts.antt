-- ===== src/Ax/Setup/Attempts.antt =====
-- The attempts of `retry` (engine/ax/internal/workspace/setup.go).
use task_a.Prelude.{ℕ, zero, suc, ◌<◌, arith, true, none, some, ◌≡◌, refl, ap, ◌∙◌}
use task_a.Ax.Setup.Names.{Text}
use task_a.Ax.Setup.Machine.{Output, Machine}
use task_a.Ax.Setup.Git.{after_wait, after_try, retry}

module _ {W : Type 0} (m : Machine W) (delay : ℕ) (op : W → Output W) where
  -- So many attempts fail, each with a full wait after it, and lead from one world to another.
  pub data Fails : ℕ → W → W → Type 0 where
    at_once : {w : W} → Fails 0 w w
    after :
        {k : ℕ} {w u x v : W} {out e : Text}
        → op w ≡ (out, some e, u)
        → m.wait delay u ≡ (true, x)
        → Fails k x v
        → Fails (suc k) w v

  settled :
      (n : ℕ) (again : W → Output W) (out : Text) (u : W)
      → after_try m delay op n again (out, none, u) ≡ (out, none, u)
  settled zero again out u = refl
  settled (suc n) again out u = refl

  -- An operation that succeeds after fewer failures than there are attempts makes `retry` succeed with its
  -- output, in its world: it is not tried again.
  pub retry-Fails :
      (attempts : ℕ) {k : ℕ} {w v u : W} {out : Text}
      → k < attempts
      → Fails k w v
      → op v ≡ (out, none, u)
      → retry m delay op attempts w ≡ (out, none, u)
  unfolding retry
  retry-Fails zero lt failures h = absurd (omega (arith, lt))
  retry-Fails (suc n) {u = u} {out = out} lt at_once h =
      ap (after_try m delay op n (retry m delay op n)) h ∙ settled n _ out u
  retry-Fails (suc zero) lt (after failed waited rest) h = absurd (omega (arith, lt))
  retry-Fails (suc (suc n)) lt (after failed waited rest) h =
      ap (after_try m delay op (suc n) (retry m delay op (suc n))) failed
      ∙ ap (after_wait m delay op (retry m delay op (suc n)) _ _) waited
      ∙ retry-Fails (suc n) (omega (arith, lt)) rest h
