-- ===== src/Graph/Paths/Safe.antt =====
-- `validPath` (engine/ax/internal/taskgraph/model.go) against the relative paths of plain segments.
use task_a.Prelude.{
  String, ℕ, suc, ◌+◌, ◌≤◌, Bool, true, false, ◌||◌, List, [], ◌∷◌, ◌++◌, if◌then◌else◌, ◌≡◌, ◌≢◌,
  ◌↔◌, refl, ap, All, arith, Bool-cases, inl, inr, sym, ◌∙◌, length, length-append, any, subst,
}
use mathlib.Core.List.{reverse, append-nil, append_assoc, reverse-cons, reverse-reverse}
use task_a.Graph.Paths.Codes.{
  codes, list_eq, has_prefix, slash, dot, dot_dot, task_agent, list_eq_sound, list_eq-of_eq,
}
use task_a.Graph.Paths.Clean.{split, join, go_up, push, squash, clean}
use task_a.Graph.Paths.Segments.{
  NoSlash, first, later, split-eq, first-NoSlash, later-NoSlash, join-split, split-join,
  first_segment,
}
use task_a.Graph.Paths.{is_forbidden, valid_codes, valid_path}

-- A segment that is a name: not empty, and neither "." nor "..".
abbrev pub IsPlain : List ℕ → Type 0
IsPlain s = (s ≢ []) × (s ≢ dot) × (s ≢ dot_dot)

pub record IsSafe (p : List ℕ) : Type 0 where
  pub allowed : All (λ c. (c ≢ 0) × (c ≢ 92)) p
  pub plain : All IsPlain (split p)
  pub not_state : first p ≢ task_agent

list_eq-ne : (p q : List ℕ) → p ≢ q → list_eq p q ≡ false
list_eq-ne p q h = elim (Bool-cases (list_eq p q)) [
  | inl e ↦ absurd (h (list_eq_sound p q e))
  | inr e ↦ e
]

ne-of_list_eq : (p q : List ℕ) → list_eq p q ≡ false → p ≢ q
ne-of_list_eq p q h e = cc (list_eq-of_eq p q e)

push-plain : (r : Bool) (st : List (List ℕ)) (s : List ℕ) → IsPlain s → push r st s ≡ s ∷ st
unfolding push
push-plain r st s h = rw (list_eq-ne s [] h.0, list_eq-ne s dot h.1, list_eq-ne s dot_dot h.2)

squash-plain :
    (r : Bool) (st ss : List (List ℕ)) → All IsPlain ss → squash r st ss ≡ reverse ss ++ st
unfolding squash
squash-plain r st [] h = refl
squash-plain r st (s ∷ ss) h =
    rw (push-plain r st s h.0, squash-plain r (s ∷ st) ss h.1, reverse-cons, append_assoc)

length-reverse {ℓ} : {A : Type ℓ} (xs : List A) → length (reverse xs) ≡ length xs
length-reverse [] = refl
length-reverse (x ∷ xs) =
    rw (reverse-cons) (omega (arith, length-append (reverse xs) (x ∷ []), length-reverse xs))

All-append {ℓ} :
    {A : Type ℓ} (P : A → Type 0) (xs ys : List A) → All P xs → All P ys → All P (xs ++ ys)
All-append P [] ys h k = k
All-append P (x ∷ xs) ys h k = (h.0, All-append P xs ys h.1 k)

All-reverse {ℓ} : {A : Type ℓ} (P : A → Type 0) (xs : List A) → All P xs → All P (reverse xs)
All-reverse P [] h = tt
All-reverse P (x ∷ xs) h =
    rw reverse-cons (All-append P (reverse xs) (x ∷ []) (All-reverse P xs h.1) (h.0, tt))

go_up-NoSlash : (r : Bool) (st : List (List ℕ)) → All NoSlash st → All NoSlash (go_up r st)
unfolding go_up
go_up-NoSlash true [] h = tt
go_up-NoSlash false [] h = ((refl, (refl, tt)), tt)
go_up-NoSlash r (t ∷ st) h = elim (Bool-cases (list_eq t dot_dot)) [
  | inl e ↦ rw e ((refl, (refl, tt)), h)
  | inr e ↦ rw e h.1
]

push-NoSlash :
    (r : Bool) (st : List (List ℕ)) (s : List ℕ)
    → All NoSlash st
    → NoSlash s
    → All NoSlash (push r st s)
unfolding push
push-NoSlash r st s h k = elim (Bool-cases (list_eq s [] || list_eq s dot)) [
  | inl e ↦ rw e h
  | inr e ↦ rw e (elim (Bool-cases (list_eq s dot_dot)) [
    | inl d ↦ rw d (go_up-NoSlash r st h)
    | inr d ↦ rw d (k, h)
  ])
]

squash-NoSlash :
    (r : Bool) (st ss : List (List ℕ))
    → All NoSlash st
    → All NoSlash ss
    → All NoSlash (squash r st ss)
unfolding squash
squash-NoSlash r st [] h k = h
squash-NoSlash r st (s ∷ ss) h k = squash-NoSlash r (push r st s) ss (push-NoSlash r st s h k.0) k.1

length-push-le :
    (r : Bool) (st : List (List ℕ)) (s : List ℕ) → length (push r st s) ≤ suc (length st)
unfolding push
length-push-le r [] s = ground arith
length-push-le r (t ∷ st) s = ground arith

length-squash-le :
    (r : Bool) (st ss : List (List ℕ)) → length (squash r st ss) ≤ length st + length ss
unfolding squash
length-squash-le r st [] = omega arith
length-squash-le r st (s ∷ ss) =
    omega (arith, length-squash-le r (push r st s) ss, length-push-le r st s)

-- Over a stack whose top is no "..", a segment that is kept is plain.
push_kept :
    (r : Bool) (t : List ℕ) (st : List (List ℕ)) (s : List ℕ)
    → t ≢ dot_dot
    → length (push r (t ∷ st) s) ≡ suc (suc (length st))
    → IsPlain s
unfolding push
push_kept r t st s h k = elim (Bool-cases (list_eq s [])) [
  | inl e ↦ absurd (ground (arith, list_eq-ne t dot_dot h))
  | inr e ↦ elim (Bool-cases (list_eq s dot)) [
    | inl d ↦ absurd (ground (arith, list_eq-ne t dot_dot h))
    | inr d ↦ elim (Bool-cases (list_eq s dot_dot)) [
      | inl u ↦ absurd (ground (arith, list_eq-ne t dot_dot h))
      | inr u ↦ (ne-of_list_eq s [] e, ne-of_list_eq s dot d, ne-of_list_eq s dot_dot u)
    ]
  ]
]

squash_kept :
    (r : Bool) (t : List ℕ) (st ss : List (List ℕ))
    → t ≢ dot_dot
    → length (squash r (t ∷ st) ss) ≡ suc (length st) + length ss
    → All IsPlain ss
unfolding squash
squash_kept r t st [] h k = tt
squash_kept r t st (s ∷ ss) h k =
    let full : length (push r (t ∷ st) s) ≡ suc (suc (length st)) =
      omega (arith, length-squash-le r (push r (t ∷ st) s) ss, length-push-le r (t ∷ st) s) in
    let plain = push_kept r t st s h full in
    (
      plain,
      squash_kept r s (t ∷ st) ss plain.2
          (omega (arith, k, ap (λ l. length (squash r l ss)) (push-plain r (t ∷ st) s plain))),
    )

-- Where nothing is dropped and the first segment is not "..", every segment is plain.
squash_kept-All :
    (s : List ℕ) (ss : List (List ℕ))
    → s ≢ dot_dot
    → length (squash false [] (s ∷ ss)) ≡ suc (length ss)
    → All IsPlain (s ∷ ss)
unfolding squash push
squash_kept-All s ss h k = elim (Bool-cases (list_eq s [])) [
  | inl e ↦ absurd (ground (arith, length-squash-le false [] ss))
  | inr e ↦ elim (Bool-cases (list_eq s dot)) [
    | inl d ↦ absurd (ground (arith, length-squash-le false [] ss))
    | inr d ↦
        let plain : IsPlain s = (ne-of_list_eq s [] e, ne-of_list_eq s dot d, h) in
        (
          plain,
          squash_kept false s [] ss h (
              omega (arith, k, ap (λ l. length (squash false l ss)) (push-plain false [] s plain))),
        )
  ]
]

segments_of_join :
    (l : List (List ℕ)) (p : List ℕ) → All NoSlash l → join l ≡ p → p ≢ [] → l ≡ split p
unfolding join
segments_of_join [] p k e ne = absurd (ne (sym e))
segments_of_join (s ∷ ss) p k e ne = rw (← e) (sym (split-join s ss k.0 k.1))

abbrev kept : List ℕ → List (List ℕ)
kept p = reverse (squash false [] (split p))

kept-NoSlash : (p : List ℕ) → All NoSlash (kept p)
kept-NoSlash p =
    All-reverse NoSlash _
      (squash-NoSlash false [] (split p) tt (rw (split-eq p) (first-NoSlash p, later-NoSlash p)))

-- A path that is its own clean form, and does not begin with "..", has only plain segments.
IsPlain-of_clean :
    (p : List ℕ) → join (kept p) ≡ p → p ≢ [] → first p ≢ dot_dot → All IsPlain (split p)
IsPlain-of_clean p e ne up =
    let same : kept p ≡ split p = segments_of_join (kept p) p (kept-NoSlash p) e ne in
    let sizes = ap {B = ℕ} length same in
    rw (split-eq p) (
      squash_kept-All (first p) (later p) up (
        rw (← split-eq p)
          (sym (length-reverse (squash false [] (split p))) ∙ sizes ∙ ap length (split-eq p))))

clean_of_plain : (p : List ℕ) → All IsPlain (split p) → join (kept p) ≡ p
clean_of_plain p h =
    rw (squash-plain false [] (split p) h, append-nil, reverse-reverse) (join-split p)

rooted-eq-nil_first : (p : List ℕ) → has_prefix (slash ∷ []) p ≡ true → first p ≡ []
unfolding has_prefix
rooted-eq-nil_first [] h = refl
rooted-eq-nil_first (c ∷ p) h = ground arith

forbidden_iff : (p : List ℕ) → (any is_forbidden p ≡ false) ↔ All (λ c. (c ≢ 0) × (c ≢ 92)) p
forbidden_iff [] = (λ _. tt, λ _. refl)
forbidden_iff (c ∷ p) = (
  λ h. (ground arith, (forbidden_iff p).0 (ground arith)),
  λ h. ground (arith, (forbidden_iff p).1 h.1),
)

task_agent-NoSlash : NoSlash task_agent
task_agent-NoSlash =
    (refl, (refl, (refl, (refl, (refl, (refl, (refl, (refl, (refl, (refl, (refl, tt)))))))))))

clean-relative :
    (p : List ℕ)
    → has_prefix (slash ∷ []) p ≡ false
    → clean p ≡ (if list_eq (join (kept p)) [] then dot else join (kept p))
unfolding clean
clean-relative p rel = rw rel

join_of_clean :
    (p : List ℕ) → has_prefix (slash ∷ []) p ≡ false → clean p ≡ p → p ≢ dot → join (kept p) ≡ p
join_of_clean p rel e ne = elim (Bool-cases (list_eq (join (kept p)) [])) [
  | inl z ↦ absurd (ne (cc (e, rw z at (clean-relative p rel))))
  | inr z ↦ cc (e, rw z at (clean-relative p rel))
]

valid_codes-IsSafe : (p : List ℕ) → valid_codes p ≡ true → IsSafe p
unfolding valid_codes
valid_codes-IsSafe p h =
    let rel : has_prefix (slash ∷ []) p ≡ false = ground arith in
    let up : list_eq (first p) dot_dot ≡ false =
      ground (arith, first_segment dot_dot p (refl, (refl, tt))) in
    let state : list_eq (first p) task_agent ≡ false =
      ground (arith, first_segment task_agent p task_agent-NoSlash) in
    let ne = ne-of_list_eq p [] (ground arith) in
    let same = list_eq_sound (clean p) p (ground arith) in
    record {
      allowed = (forbidden_iff p).0 (ground arith);
      plain =
          IsPlain-of_clean p (join_of_clean p rel same (ne-of_list_eq p dot (ground arith))) ne
            (ne-of_list_eq _ _ up);
      not_state = ne-of_list_eq _ _ state;
    }

-- What the segments of a safe path say of the whole.
module _ (p : List ℕ) (s : IsSafe p) where
  first-IsPlain : IsPlain (first p)
  first-IsPlain =
      let h : All IsPlain (first p ∷ later p) = subst (λ l. All IsPlain l) (split-eq p) s.plain in
      h.0

  safe-ne-nil : p ≢ []
  safe-ne-nil e = first-IsPlain.0 (ap first e)

  safe-ne-dot : p ≢ dot
  safe-ne-dot e = first-IsPlain.1 (ap first e)

  safe-relative : has_prefix (slash ∷ []) p ≡ false
  safe-relative = elim (Bool-cases (has_prefix (slash ∷ []) p)) [
    | inl e ↦ absurd (first-IsPlain.0 (rooted-eq-nil_first p e))
    | inr e ↦ e
  ]

  safe-clean : clean p ≡ p
  safe-clean =
      rw (clean-relative p safe-relative, clean_of_plain p s.plain, list_eq-ne p [] safe-ne-nil)

IsSafe-valid_codes : (p : List ℕ) → IsSafe p → valid_codes p ≡ true
unfolding valid_codes
IsSafe-valid_codes p s = ground (
  arith,
  list_eq-ne p [] (safe-ne-nil p s),
  list_eq-ne p dot (safe-ne-dot p s),
  (forbidden_iff p).1 s.allowed,
  safe-relative p s,
  list_eq-of_eq (clean p) p (safe-clean p s),
  first_segment dot_dot p (refl, (refl, tt)),
  list_eq-ne (first p) dot_dot (first-IsPlain p s).2,
  first_segment task_agent p task_agent-NoSlash,
  list_eq-ne (first p) task_agent s.not_state,
)

-- A path is accepted exactly when none of its characters is NUL or a backslash, each of its
-- segments is a name (not empty, "." or ".."), and the first of them is not ".task-agent".
pub valid_path_iff : (p : String) → (valid_path p ≡ true) ↔ IsSafe (codes p)
unfolding valid_path
valid_path_iff p = (valid_codes-IsSafe (codes p), IsSafe-valid_codes (codes p))
