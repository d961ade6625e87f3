-- ===== src/Graph/Collect/Delivered.antt =====
-- What the runner collects (engine/ax/cmd/ax-task-runner/task_agent.go) is what the engine asks of a result.
use task_a.Prelude.{
  String, ℕ, suc, ◌+◌, ◌≤◌, pos, Bool, true, false, List, [], ◌∷◌, Map, insert, has_key, ◌==◌,
  eq_iff, eq_refl, eq_false, ltb, length, Memᴰ, if◌then◌else◌, ◌≡◌, refl, sym, ap, subst, ◌∙◌, inl,
  inr, Bool-cases, Option-cases, String-cases, arith,
}
use task_a.Graph.Validate.Nodes.{IsDistinct}
use task_a.Graph.Engine.Step.{is_clean}
use task_a.Graph.Live.Track.{Covers, Delivers}
use task_a.Graph.Collect.{Host, full_path, collect, collected, size_of, text_of, is_same, fits}

module _ {ℓ} {V : Type ℓ} where
  length-insert :
      (k : String) (v : V) (m : Map V)
      → has_key k m ≡ false
      → length (insert k v m) ≡ suc (length m)
  unfolding has_key insert
  length-insert k v [] h = refl
  length-insert k v ((i, w) ∷ m) h = elim (String-cases i k) [
    | inl p ↦ cc (rw (p.1) at h)
    | inr p ↦ rw (p.1) (ap (λ n. suc n) (length-insert k v m (rw (p.1) at h)))
  ]

  has_key-insert :
      (k i : String) (v : V) (m : Map V)
      → has_key i (insert k v m) ≡ (if k == i then true else has_key i m)
  unfolding has_key insert
  has_key-insert k i v [] = ground arith
  has_key-insert k i v ((j, w) ∷ m) =
      ground (arith, has_key-insert k i v m, eq_iff k i, eq_iff j k, eq_iff j i)

module _ {W : Type 0} (h : Host W) (w : W) where
  -- The bytes of these outputs together.
  abbrev pub weight : List String → ℕ
  weight [] = 0
  weight (p ∷ ps) = size_of (h.read_file (full_path h p) w) + weight ps

  record Collects (ps : List String) (total : ℕ) (files files' : Map String) : Type 0 where
    longer : length files' ≡ length files + length ps
    covers : Covers ps files'
    keeps : (k : String) → has_key k files ≡ true → has_key k files' ≡ true
    bounded : total ≤ 4194304 → total + weight ps ≤ 4194304

  passes :
      (p : String) (ps : List String) (total : ℕ) (files files' : Map String)
      → collect h (p ∷ ps) total files w ≡ (files', "")
      → (text : String) × (ltb 4194304 (total + size_of (h.read_file (full_path h p) w)) ≡ false)
        × (collect h ps (total + size_of (h.read_file (full_path h p) w)) (insert p text files) w
            ≡ (files', ""))
  unfolding collect
  passes p ps total files files' e =
      let full = full_path h p in
      elim (Bool-cases (is_same full (h.eval_symlinks full w))) [
        | inr a ↦ cc (rw (a) at e)
        | inl a ↦ elim (Bool-cases (fits (h.stat full w))) [
          | inr b ↦ cc (rw (a, b) at e)
          | inl b ↦ elim (Option-cases (text_of (h.read_file full w))) [
            | inl t ↦ cc (rw (a, b, t) at e)
            | inr (text, t) ↦
                elim (Bool-cases (ltb 4194304 (total + size_of (h.read_file full w)))) [
                  | inl l ↦ cc (rw (a, b, t, l) at e)
                  | inr l ↦ (text, l, rw (a, b, t, l) at e)
                ]
          ]
        ]
      ]

  collect-Collects :
      (ps : List String) (total : ℕ) (files files' : Map String)
      → IsDistinct ps
      → ((p : String) → Memᴰ p ps → has_key p files ≡ false)
      → collect h ps total files w ≡ (files', "")
      → Collects ps total files files'
  unfolding collect
  collect-Collects [] total files files' distinct fresh e =
      let same : files ≡ files' = ap (λ x. x.0) e in
      record {
        longer = let l : length files ≡ length files' = ap length same in omega (arith, l);
        covers = tt;
        keeps = λ k q. cc (q, ap (has_key k) same);
        bounded = λ le. omega (arith, le);
      }
  collect-Collects (p ∷ ps) total files files' distinct fresh e =
      let (text, room, rest) = passes p ps total files files' e in
      let ih =
        collect-Collects ps _ (insert p text files) files' distinct.1
          (λ q m.
            has_key-insert p q text files
            ∙ rw
                (eq_false p q (λ same. distinct.0 (subst (λ (x : String). Memᴰ x ps) (sym same) m)))
                (fresh q (Memᴰ.tail m)))
          rest in
      let new = length-insert p text files (fresh p (Memᴰ.head refl)) in
      record {
        longer = omega (arith, ih.longer, new);
        covers = (ih.keeps p (has_key-insert p p text files ∙ rw (eq_refl p) refl), ih.covers);
        keeps =
            λ k q. ih.keeps k (has_key-insert p k text files ∙ kept (p == k) (has_key k files) q);
        bounded =
            λ le. let fits_still = ih.bounded (ground (arith, room)) in omega (arith, fits_still);
      }
    where
      kept : (a b : Bool) → b ≡ true → (if a then true else b) ≡ true
      kept true b q = refl
      kept false b q = q

-- A result that the runner collected from a command that exited with 0, without an error, is what the
-- engine adopts: it is clean and holds exactly the declared outputs, which are distinct, and their files
-- have 4 MiB together at most.
pub collected-Delivers :
    {W : Type 0} (h : Host W) (w : W) (task : String) (outputs : List String)
    → IsDistinct outputs
    → (collected h task (pos 0) outputs w).error ≡ ""
    → (is_clean (collected h task (pos 0) outputs w) ≡ true)
      × Delivers outputs (collected h task (pos 0) outputs w)
      × (weight h w outputs ≤ 4194304)
unfolding collected is_clean has_key
collected-Delivers h w task outputs distinct good =
    let x = collect h outputs 0 [] w in
    let all = collect-Collects h w outputs 0 [] x.0 distinct (λ p m. refl) (λ i. (x.0, good i)) in
    let len : length x.0 ≡ length outputs = omega (arith, all.longer) in
    let le = all.bounded (omega arith) in (rw (good) refl, (len, all.covers), omega (arith, le))
