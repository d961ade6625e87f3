-- ===== src/Graph/Collect/Guest.antt =====
-- The bounded transport of a guest (engine/ax/internal/guest/task_agent.go).
use task_a.Prelude.{
  ℕ, ◌+◌, ◌≤◌, false, List, [], ◌++◌, Option, none, some, Result, ok, err, ok-injective, Exec,
  length, length-append, ltb, if◌then◌else◌, ◌≡◌, ◌↔◌, refl, sym, ap, ◌∙◌, subst, inl, inr,
  Bool-cases, Option-cases, arith,
}
use mathlib.Core.List.{append_assoc, append-nil}

-- What a file's stream gives until it ends or breaks off.
pub data Chunks (E : Type 0) : Type 0 where
  eof : Chunks E
  failed : E → Chunks E
  chunk : List ℕ → Chunks E → Chunks E

pub data GuestError (E : Type 0) : Type 0 where
  transport : E → GuestError E
  exceeds : (limit : ℕ) → GuestError E
  too_large : GuestError E

module _ {E : Type 0} where
  -- The loop of `ReadBounded`, with what it has read so far.
  unfoldable pub receive : (limit : ℕ) → List ℕ → Chunks E → Result (GuestError E) (List ℕ)
  receive limit b Chunks.eof = ok b
  receive limit b (Chunks.failed e) = err (GuestError.transport e)
  receive limit b (Chunks.chunk c rest) =
      let next = receive limit (b ++ c) rest in
      if ltb limit (length b + length c) then err (GuestError.exceeds limit) else next

  unfoldable pub read_bounded : (limit : ℕ) → Result E (Chunks E) → Result (GuestError E) (List ℕ)
  unfolding receive
  read_bounded limit (err e) = err (GuestError.transport e)
  read_bounded limit (ok chunks) = receive limit [] chunks

  -- The bytes of a stream that ends.
  abbrev pub whole : Chunks E → Option (List ℕ)
  whole Chunks.eof = some []
  whole (Chunks.failed e) = none
  whole (Chunks.chunk c rest) = elim (whole rest) [ none ↦ none | some bs ↦ some (c ++ bs) ]

  receive_sound :
      (limit : ℕ) (b bs : List ℕ) (s : Chunks E)
      → length b ≤ limit
      → receive limit b s ≡ ok bs
      → (rest : List ℕ) × (whole s ≡ some rest) × (bs ≡ b ++ rest) × (length bs ≤ limit)
  unfolding receive
  receive_sound limit b bs Chunks.eof le h =
      let same : b ≡ bs = ok-injective h in
      ([], refl, sym same ∙ sym (append-nil b), subst (λ (x : List ℕ). length x ≤ limit) same le)
  receive_sound limit b bs (Chunks.failed e) le h = cc (h)
  receive_sound limit b bs (Chunks.chunk c s) le h =
      elim (Bool-cases (ltb limit (length b + length c))) [
        | inl e ↦ cc (rw (e) at h)
        | inr e ↦
            let (rest, all, same, short) =
              receive_sound limit (b ++ c) bs s (ground (arith, length-append b c)) (rw (e) at h) in
            (c ++ rest, rw (all) refl, same ∙ append_assoc b c rest, short)
      ]

  receive_complete :
      (limit : ℕ) (b rest : List ℕ) (s : Chunks E)
      → whole s ≡ some rest
      → length (b ++ rest) ≤ limit
      → receive limit b s ≡ ok (b ++ rest)
  unfolding receive
  receive_complete limit b rest Chunks.eof all le =
      let none_left : [] ≡ rest = cc (all) in
      ap ok (sym (append-nil b) ∙ ap (λ (x : List ℕ). b ++ x) none_left)
  receive_complete limit b rest (Chunks.failed e) all le = cc (all)
  receive_complete limit b rest (Chunks.chunk c s) all le = elim (Option-cases (whole s)) [
    | inl e ↦ cc (rw (e) at all)
    | inr (bs, e) ↦
        let same : c ++ bs ≡ rest = cc (rw (e) at all) in
        let short : length (b ++ (c ++ bs)) ≤ limit =
          subst (λ (x : List ℕ). length (b ++ x) ≤ limit) (sym same) le in
        let fits : length ((b ++ c) ++ bs) ≤ limit =
          subst (λ (x : List ℕ). length x ≤ limit) (sym (append_assoc b c bs)) short in
        let room : ltb limit (length b + length c) ≡ false =
          ground (arith, fits, length-append (b ++ c) bs, length-append b c) in
        rw (room) (
          receive_complete limit (b ++ c) bs s e fits
          ∙ ap ok (append_assoc b c bs ∙ ap (λ (x : List ℕ). b ++ x) same))
  ]

  -- A bounded read gives these bytes exactly where the stream opens, ends, and holds these bytes, no more of
  -- them than the limit.
  pub read_bounded_iff :
      (limit : ℕ) (opened : Result E (Chunks E)) (bs : List ℕ)
      → (read_bounded limit opened ≡ ok bs)
        ↔ ((s : Chunks E) × (opened ≡ ok s) × (whole s ≡ some bs) × (length bs ≤ limit))
  unfolding read_bounded
  read_bounded_iff limit (err e) bs = (λ h. cc (h), λ (s, h, all, le). cc (h))
  read_bounded_iff limit (ok s) bs = (λ h. sound h, λ (t, h, all, le). complete t h all le)
    where
      sound :
          receive limit [] s ≡ ok bs
          → (t : Chunks E) × (◌≡◌ {A = Result E (Chunks E)} (ok s) (ok t))
            × (whole t ≡ some bs)
            × (length bs ≤ limit)
      sound h =
          let (rest, all, same, short) = receive_sound limit [] bs s (omega arith) h in
          (s, refl, all ∙ ap some (sym same), short)

      complete :
          (t : Chunks E)
          → ◌≡◌ {A = Result E (Chunks E)} (ok s) (ok t)
          → whole t ≡ some bs
          → length bs ≤ limit
          → receive limit [] s ≡ ok bs
      complete t h all le = receive_complete limit [] bs s (ap whole (ok-injective h) ∙ all) le

module _ {W E : Type 0} where
  -- `send` stands for the calls of the transport that write one chunk.
  unfoldable pub write_activation : Exec W E (Unit {0}) → List ℕ → Exec W (GuestError E) (Unit {0})
  write_activation send content w =
      if ltb 1024 (length content) then (err GuestError.too_large, w) else sent (send w)
    where
      sent : Result E (Unit {0}) × W → Result (GuestError E) (Unit {0}) × W
      sent (err e, v) = (err (GuestError.transport e), v)
      sent (ok u, v) = (ok u, v)
